-- ===== src/Buffer/Frame.antt =====
-- What a store leaves alone: everything behind the bytes that it writes.
use hype.Base.{
  ℕ, zero, suc, ◌+◌, ◌-◌, ◌≤◌, ◌≡◌, refl, List, [], ◌∷◌, ◌++◌, some, length, take, drop, arith,
  length-append, length-take, length-drop, Option, ◌>>=◌, ap, ◌∙◌, sym,
}
use hype.Buffer.{store}
use hype.Buffer.Laws.{store-some}

drop-cons : (n m x : ℕ) (xs : List ℕ) → n ≡ suc m → drop n (x ∷ xs) ≡ drop m xs
drop-cons n m x xs e = rw e refl

drop-nil : (n : ℕ) → drop {A = ℕ} n [] ≡ []
drop-nil zero = refl
drop-nil (suc n) = refl

pub drop-drop : (a b : ℕ) (xs : List ℕ) → drop a (drop b xs) ≡ drop (b + a) xs
drop-drop a zero xs = ap (λ n. drop n xs) (omega arith)
drop-drop a (suc b) [] = drop-nil a ∙ sym (drop-nil (suc b + a))
drop-drop a (suc b) (x ∷ xs) =
    drop-drop a b xs ∙ sym (drop-cons (suc b + a) (b + a) x xs (omega arith))

pub drop-append_add : (n k : ℕ) (xs ys : List ℕ) → n ≡ length xs + k → drop n (xs ++ ys) ≡ drop k ys
drop-append_add n k [] ys e = ap (λ m. drop m ys) (omega arith)
drop-append_add n k (x ∷ xs) ys e =
    drop-cons n (length xs + k) x (xs ++ ys) (omega arith)
    ∙ drop-append_add (length xs + k) k xs ys refl

-- A prefix, then something in place of the rest.
pub drop-take_append :
    (n i k : ℕ) (buf rest : List ℕ)
    → i ≤ length buf
    → n ≡ i + k
    → drop n (take i buf ++ rest) ≡ drop k rest
drop-take_append n i k buf rest h e =
    drop-append_add n k (take i buf) rest (omega (arith, length-take i buf))

-- The result of writing into `buf`: it succeeds, keeps the length, and all bytes from `l` on.
pub record IsFramed (buf : List ℕ) (l : ℕ) (result : Option (List ℕ)) : Type 0 where
  pub out : List ℕ
  pub returns : result ≡ some out
  pub same_length : length out ≡ length buf
  pub behind : drop l out ≡ drop l buf

pub store-IsFramed :
    (buf : List ℕ) (i : ℕ) (bs : List ℕ) (l : ℕ)
    → i + length bs ≤ l
    → l ≤ length buf
    → IsFramed buf l (store buf i bs)
store-IsFramed buf i bs l h fits =
    let rest = drop (i + length bs) buf in
    record {
      out = take i buf ++ (bs ++ rest);
      returns = store-some buf i bs (omega arith);
      same_length = omega (
        arith,
        length-append (take i buf) (bs ++ rest),
        length-append bs rest,
        length-take i buf,
        length-drop (i + length bs) buf,
      );
      behind =
          drop-take_append l i (l - i) buf (bs ++ rest) (omega arith) (omega arith)
          ∙ drop-append_add (l - i) (l - i - length bs) bs rest (omega arith)
          ∙ drop-drop (l - i - length bs) (i + length bs) buf
          ∙ ap (λ n. drop n buf) (omega arith);
    }

-- Writing once more.
pub IsFramed-bind :
    (buf : List ℕ) (l : ℕ) (m : Option (List ℕ)) (k : List ℕ → Option (List ℕ))
    → IsFramed buf l m
    → ((out : List ℕ) → length out ≡ length buf → IsFramed out l (k out))
    → IsFramed buf l (m >>= k)
IsFramed-bind buf l m k first next =
    let second = next first.out first.same_length in
    record {
      out = second.out;
      returns = rw first.returns second.returns;
      same_length = second.same_length ∙ first.same_length;
      behind = second.behind ∙ first.behind;
    }

-- A value computed in between.
pub IsFramed-with :
    (buf : List ℕ) (l : ℕ) {A : Type 0} (m : Option A) (k : A → Option (List ℕ)) {a : A}
    → m ≡ some a
    → IsFramed buf l (k a)
    → IsFramed buf l (m >>= k)
IsFramed-with buf l m k e next = rw e next

-- What a layer leaves alone in its part of the buffer, it leaves alone in the buffer.
pub splice-frame :
    (buf out : List ℕ) (j l plen : ℕ)
    → j + l ≤ plen
    → plen ≤ length buf
    → length out ≡ length (drop j buf)
    → drop l out ≡ drop l (drop j buf)
    → (length (take j buf ++ out) ≡ length buf) × (drop plen (take j buf ++ out) ≡ drop plen buf)
splice-frame buf out j l plen h fits e same = (
  omega (arith, length-append (take j buf) out, length-take j buf, length-drop j buf),
  drop-take_append plen j (plen - j) buf out (omega arith) (omega arith)
      ∙ ap (λ n. drop n out) (omega arith)
      ∙ sym (drop-drop (plen - j - l) l out)
      ∙ ap (drop (plen - j - l)) same
      ∙ drop-drop (plen - j - l) l (drop j buf)
      ∙ drop-drop (l + (plen - j - l)) j buf
      ∙ ap (λ n. drop n buf) (omega arith),
)
