-- ===== src/Proto/Layer/Sealing.antt =====
-- Filling in the checksum field of a header.
use mathlib.Core.List.{append_assoc}
use hype.Base.{
  Option, ℕ, ◌+◌, ◌%◌, ◌^◌, ◌<◌, ◌≤◌, ◌≡◌, List, ◌++◌, some, le16, length, arith, ◌∙◌,
  length-append,
}
use hype.Buffer.{fetch}
use hype.Buffer.Laws.{fetch-front, store-append}
use hype.Checksum.{pkt_chksum}
use hype.Checksum.Words.{IsBytes}
use hype.Checksum.Verify.{pkt_chksum_verifies}
use hype.Proto.Layer.{store_chksum}

-- `out` is the buffer with the field filled in so that the bytes that the checksum covers verify.
pub record IsSealed (pre post tail : List ℕ) (csum : ℕ) (result : Option (List ℕ)) : Type 0 where
  pub field : ℕ
  pub fits : field < 2 ^ 16
  pub returns : result ≡ some (pre ++ (le16 field ++ (post ++ tail)))
  pub verifies : pkt_chksum (pre ++ (le16 field ++ post)) csum ≡ some 0

fetch-covered :
    (pre post tail : List ℕ) (len : ℕ)
    → len ≡ length pre + 2 + length post
    → fetch (pre ++ (le16 0 ++ (post ++ tail))) 0 len ≡ some (pre ++ (le16 0 ++ post))
fetch-covered pre post tail len e =
    rw (e ∙ covered-length, ← append_assoc pre (le16 0 ++ post) tail)
      (fetch-front (pre ++ (le16 0 ++ post)) tail)
  where
    covered-length : length pre + 2 + length post ≡ length (pre ++ (le16 0 ++ post))
    covered-length = omega (arith, length-append pre (le16 0 ++ post))

pub store_chksum-IsSealed :
    (pre post tail : List ℕ) (csum len off : ℕ)
    → length pre % 2 ≡ 0
    → IsBytes pre
    → IsBytes post
    → length pre + length post ≤ 65535
    → csum ≤ 2 ^ 20
    → off ≡ length pre
    → len ≡ length pre + 2 + length post
    → IsSealed pre post tail csum (store_chksum (pre ++ (le16 0 ++ (post ++ tail))) len csum off)
unfolding store_chksum
store_chksum-IsSealed pre post tail csum len off even bp bq short small eo el =
    let (c, first, fits, second) = pkt_chksum_verifies pre post csum even bp bq short small in
    record {
      field = c;
      fits = fits;
      returns =
          rw (eo, fetch-covered pre post tail len el, first)
            (store-append pre (le16 0 ++ (post ++ tail)) (le16 c) (omega (arith)));
      verifies = second;
    }
