-- ===== src/Buffer/Laws.antt =====
-- Stores and fetches that stay in range.
use hype.Base.{
  ℕ, zero, suc, ◌+◌, ◌≤◌, ◌≡◌, refl, List, [], ◌∷◌, ◌++◌, some, length, take, drop, arith, byte_at,
  ◌<◌, ltb, false, length-append, length-take, length-drop, ap, ◌∙◌, take-append, drop-append,
}
use mathlib.Core.List.{append_assoc}
use hype.Buffer.{store, fetch}

pub store-front :
    (buf bs : List ℕ) → length bs ≤ length buf → store buf 0 bs ≡ some (bs ++ drop (length bs) buf)
unfolding store
store-front buf bs h = ground arith

pub length-store :
    (buf : List ℕ) (i : ℕ) (bs : List ℕ) {out : List ℕ}
    → store buf i bs ≡ some out
    → length out ≡ length buf
unfolding store
length-store buf i bs e = ground (
  arith,
  length-append (take i buf) (bs ++ drop (i + length bs) buf),
  length-append bs (drop (i + length bs) buf),
  length-take i buf,
  length-drop (i + length bs) buf,
)

-- A store that fits succeeds.
pub store-some :
    (buf : List ℕ) (i : ℕ) (bs : List ℕ)
    → i + length bs ≤ length buf
    → store buf i bs ≡ some (take i buf ++ (bs ++ drop (i + length bs) buf))
unfolding store
store-some buf i bs h = ground arith

pub fetch-some :
    (buf : List ℕ) (i n : ℕ) → i + n ≤ length buf → fetch buf i n ≡ some (take n (drop i buf))
unfolding fetch
fetch-some buf i n h = ground arith

drop-append_add : (xs ys : List ℕ) (k : ℕ) → drop (length xs + k) (xs ++ ys) ≡ drop k ys
drop-append_add [] ys k = ap (λ n. drop n ys) (omega arith)
drop-append_add (x ∷ xs) ys k =
    ap (λ n. drop n (x ∷ xs ++ ys)) (add_suc_lem (length xs) k) ∙ drop-append_add xs ys k
  where
    add_suc_lem : (n k : ℕ) → suc n + k ≡ suc (n + k)
    add_suc_lem n k = omega arith

take-length : (xs : List ℕ) → take (length xs) xs ≡ xs
take-length [] = refl
take-length (x ∷ xs) = ap (λ t. x ∷ t) (take-length xs)

-- Writing behind a prefix of known length.
pub store-append :
    (pre rest bs : List ℕ)
    → length bs ≤ length rest
    → store (pre ++ rest) (length pre) bs ≡ some (pre ++ (bs ++ drop (length bs) rest))
unfolding store
store-append pre rest bs h =
    ground
      (arith, length-append pre rest, take-append pre rest, drop-append_add pre rest (length bs))

-- Reading a prefix of known length.
pub fetch-front : (xs ys : List ℕ) → fetch (xs ++ ys) 0 (length xs) ≡ some xs
unfolding fetch
fetch-front xs ys = ground (arith, length-append xs ys, take-append xs ys)

pub fetch-all : (xs : List ℕ) → fetch xs 0 (length xs) ≡ some xs
unfolding fetch
fetch-all xs = ground (arith, take-length xs)

pub take-append_of_eq : (n : ℕ) (xs ys : List ℕ) → length xs ≡ n → take n (xs ++ ys) ≡ xs
take-append_of_eq n xs ys e = rw (← e) (take-append xs ys)

pub drop-append_of_eq : (n : ℕ) (xs ys : List ℕ) → length xs ≡ n → drop n (xs ++ ys) ≡ ys
drop-append_of_eq n xs ys e = rw (← e) (drop-append xs ys)

-- The guard and the read of an unpacking routine on `n` header bytes and a rest.
pub long-enough : (n : ℕ) (bs rest : List ℕ) → length bs ≡ n → ltb (length (bs ++ rest)) n ≡ false
long-enough n bs rest e = ground (arith, length-append bs rest)

pub fetch-front_of_eq :
    (n : ℕ) (bs rest : List ℕ) → length bs ≡ n → fetch (bs ++ rest) 0 n ≡ some bs
fetch-front_of_eq n bs rest e = rw (← e) (fetch-front bs rest)

-- Writing over a prefix of the same length.
pub store-over :
    (old bs rest : List ℕ) → length old ≡ length bs → store (old ++ rest) 0 bs ≡ some (bs ++ rest)
store-over old bs rest e =
    store-front (old ++ rest) bs (omega (arith, length-append old rest))
    ∙ ap (λ t. some (bs ++ t)) (drop-append_of_eq (length bs) old rest e)

-- A header of `n` bytes and the payload behind it, taken off the front.
pub take-header :
    (n : ℕ) (bs payload tail : List ℕ)
    → length bs ≡ n
    → take (n + length payload) (bs ++ (payload ++ tail)) ≡ bs ++ payload
take-header n bs payload tail e = rw (← append_assoc bs payload tail) (
    take-append_of_eq (n + length payload) (bs ++ payload) tail
      (omega (arith, length-append bs payload)))

pub byte_at-append_left :
    (xs ys : List ℕ) (i : ℕ) → i < length xs → byte_at (xs ++ ys) i ≡ byte_at xs i
byte_at-append_left [] ys i h = elim h [ ]
byte_at-append_left (x ∷ xs) ys zero h = refl
byte_at-append_left (x ∷ xs) ys (suc i) h = byte_at-append_left xs ys i (omega arith)

-- Writing at the end of what has been written.
pub store-behind :
    (pre rest bs : List ℕ) (i : ℕ)
    → i ≡ length pre
    → length bs ≤ length rest
    → store (pre ++ rest) i bs ≡ some ((pre ++ bs) ++ drop (length bs) rest)
store-behind pre rest bs i e h =
    rw (e, append_assoc pre bs (drop (length bs) rest)) (store-append pre rest bs h)

-- Reading a block behind a prefix.
pub fetch-middle :
    (pre xs post : List ℕ) (i n : ℕ)
    → i ≡ length pre
    → n ≡ length xs
    → fetch (pre ++ (xs ++ post)) i n ≡ some xs
unfolding fetch
fetch-middle pre xs post i n ei en =
    rw (ei, en, drop-append pre (xs ++ post), take-append xs post)
      (ground (arith, length-append pre (xs ++ post), length-append xs post))

pub byte_at-append_right :
    (xs ys : List ℕ) (i j : ℕ) → i ≡ length xs + j → byte_at (xs ++ ys) i ≡ byte_at ys j
byte_at-append_right [] ys i j e = ap (λ n. byte_at ys n) (omega arith)
byte_at-append_right (x ∷ xs) ys zero j e = absurd (omega arith)
byte_at-append_right (x ∷ xs) ys (suc i) j e = byte_at-append_right xs ys i j (omega arith)

pub fetch-all_of_eq : (xs : List ℕ) (n : ℕ) → n ≡ length xs → fetch xs 0 n ≡ some xs
fetch-all_of_eq xs n e = rw e (fetch-all xs)
