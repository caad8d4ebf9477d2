-- ===== src/Text/Order/Sorting.antt =====
-- sort.Strings and the order of strings.
use mathlib.Core.List.{Perm}
use mathlib.Core.List.Perm
use shadow_twin.Prelude.{
  Bytes, ◌≡◌, refl, inl, inr, true, false, List, [], ◌∷◌, arith, All, length, if◌then◌else◌,
  Bool-cases, ap, ◌∙◌, suc, Bool,
}
use shadow_twin.Text.Order.{leb_bytes, insert_sorted, sort_strings}

pub leb_bytes_refl : (a : Bytes) → leb_bytes a a ≡ true
unfolding leb_bytes
leb_bytes_refl [] = refl
leb_bytes_refl (x ∷ a) = ground (arith, leb_bytes_refl a)

pub leb_bytes_total : (a b : Bytes) → leb_bytes a b ≡ false → leb_bytes b a ≡ true
unfolding leb_bytes
leb_bytes_total [] b h = ground arith
leb_bytes_total (x ∷ a) [] h = refl
leb_bytes_total (x ∷ a) (y ∷ b) h = ground (arith, leb_bytes_total a b)

pub leb_bytes_trans :
    (a b c : Bytes) → leb_bytes a b ≡ true → leb_bytes b c ≡ true → leb_bytes a c ≡ true
unfolding leb_bytes
leb_bytes_trans [] b c h k = refl
leb_bytes_trans (x ∷ a) [] c h k = ground arith
leb_bytes_trans (x ∷ a) (y ∷ b) [] h k = ground arith
leb_bytes_trans (x ∷ a) (y ∷ b) (z ∷ c) h k = ground (arith, leb_bytes_trans a b c)

abbrev pub Below : Bytes → List Bytes → Type 0
Below s ts = All (λ t. leb_bytes s t ≡ true) ts

abbrev pub IsSorted : List Bytes → Type 0
IsSorted [] = Unit
IsSorted (s ∷ ss) = Below s ss × IsSorted ss

Below-trans : (a b : Bytes) (ts : List Bytes) → leb_bytes a b ≡ true → Below b ts → Below a ts
Below-trans a b [] h k = tt
Below-trans a b (t ∷ ts) h (k, ks) = (leb_bytes_trans a b t h k, Below-trans a b ts h ks)

-- What holds of all strings holds of them sorted.
module _ (P : Bytes → Type 0) where
  All-insert_sorted : (s : Bytes) (ts : List Bytes) → P s → All P ts → All P (insert_sorted s ts)
  unfolding insert_sorted
  All-insert_sorted s [] p ps = (p, tt)
  All-insert_sorted s (t ∷ ts) p (q, qs) = elim (Bool-cases (leb_bytes s t)) [
    | inl e ↦ rw e (p, (q, qs))
    | inr e ↦ rw e (q, All-insert_sorted s ts p qs)
  ]

  pub All-sort_strings : (ss : List Bytes) → All P ss → All P (sort_strings ss)
  unfolding sort_strings
  All-sort_strings [] h = tt
  All-sort_strings (s ∷ ss) (p, ps) =
      All-insert_sorted s (sort_strings ss) p (All-sort_strings ss ps)

insert_sorted-IsSorted : (s : Bytes) (ts : List Bytes) → IsSorted ts → IsSorted (insert_sorted s ts)
unfolding insert_sorted
insert_sorted-IsSorted s [] h = (tt, tt)
insert_sorted-IsSorted s (t ∷ ts) (b, h) = elim (Bool-cases (leb_bytes s t)) [
  | inl e ↦ rw e ((e, Below-trans s t ts e b), (b, h))
  | inr e ↦ rw e (
    All-insert_sorted (λ u. leb_bytes t u ≡ true) s ts (leb_bytes_total s t e) b,
    insert_sorted-IsSorted s ts h,
  )
]

pub sort_strings-IsSorted : (ss : List Bytes) → IsSorted (sort_strings ss)
unfolding sort_strings
sort_strings-IsSorted [] = tt
sort_strings-IsSorted (s ∷ ss) =
    insert_sorted-IsSorted s (sort_strings ss) (sort_strings-IsSorted ss)

if-perm :
    (b : Bool) (xs ys zs : List Bytes) → Perm xs zs → Perm ys zs → Perm (if b then xs else ys) zs
if-perm true xs ys zs p q = p
if-perm false xs ys zs p q = q

insert_sorted-perm : (s : Bytes) (ts : List Bytes) → Perm (insert_sorted s ts) (s ∷ ts)
unfolding insert_sorted
insert_sorted-perm s [] = Perm.refl (s ∷ [])
insert_sorted-perm s (t ∷ ts) =
    if-perm (leb_bytes s t) _ _ _ (Perm.refl _)
      (Perm.trans (Perm.cons t (insert_sorted-perm s ts)) (Perm.swap s t ts))

pub sort_strings-perm : (ss : List Bytes) → Perm (sort_strings ss) ss
unfolding sort_strings
sort_strings-perm [] = Perm.refl []
sort_strings-perm (s ∷ ss) =
    Perm.trans (insert_sorted-perm s (sort_strings ss)) (Perm.cons s (sort_strings-perm ss))

length-insert_sorted : (s : Bytes) (ts : List Bytes) → length (insert_sorted s ts) ≡ suc (length ts)
unfolding insert_sorted
length-insert_sorted s [] = refl
length-insert_sorted s (t ∷ ts) = ground (arith, length-insert_sorted s ts)

pub length-sort_strings : (ss : List Bytes) → length (sort_strings ss) ≡ length ss
unfolding sort_strings
length-sort_strings [] = refl
length-sort_strings (s ∷ ss) =
    length-insert_sorted s (sort_strings ss) ∙ ap suc (length-sort_strings ss)
