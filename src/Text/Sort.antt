-- ===== src/Text/Sort.antt =====
-- Go's < on strings, which compares bytes and so code points, and sort.Strings.
use mathlib.Core.List.{Perm}
use mathlib.Core.List.Perm
use docker_in_k8s.Common.{
  ◌∙◌, ◌≡◌, refl, inl, inr, Bool, true, false, ◌&&◌, ◌||◌, List, [], ◌∷◌, arith, ltb, eqb,
  if◌then◌else◌, Bool-cases,
}
use docker_in_k8s.Text.Equality.{Text, ◌==◌, is_one_of}

unfoldable pub text_lt : Text → Text → Bool
text_lt s [] = false
text_lt [] (y ∷ ys) = true
text_lt (x ∷ xs) (y ∷ ys) = ltb x y || (eqb x y && text_lt xs ys)

insert_text : Text → List Text → List Text
insert_text k [] = k ∷ []
insert_text k (j ∷ ks) = let rest = insert_text k ks in if text_lt j k then j ∷ rest else k ∷ j ∷ ks

unfoldable pub sort_texts : List Text → List Text
unfolding insert_text
sort_texts [] = []
sort_texts (k ∷ ks) = insert_text k (sort_texts ks)

-- No text is followed by a smaller one.
abbrev pub IsOrdered : List Text → Type 0
IsOrdered [] = Unit
IsOrdered (k ∷ []) = Unit
IsOrdered (k ∷ j ∷ ks) = (text_lt j k ≡ false) × IsOrdered (j ∷ ks)

text_lt_asym : (s t : Text) → text_lt s t ≡ true → text_lt t s ≡ false
unfolding text_lt
text_lt_asym s [] h = cc
text_lt_asym [] (y ∷ ys) h = refl
text_lt_asym (x ∷ xs) (y ∷ ys) h = ground (arith, text_lt_asym xs ys)

insert_text-IsOrdered_below :
    (k j : Text) (ks : List Text)
    → text_lt j k ≡ true
    → IsOrdered (j ∷ ks)
    → IsOrdered (insert_text k ks)
    → IsOrdered (j ∷ insert_text k ks)
unfolding insert_text
insert_text-IsOrdered_below k j [] h o o' = (text_lt_asym j k h, tt)
insert_text-IsOrdered_below k j (i ∷ ks) h o o' = elim (Bool-cases (text_lt i k)) [
  | inl e ↦ rw e (o.0, rw e at o')
  | inr e ↦ rw e (text_lt_asym j k h, rw e at o')
]

IsOrdered-tail : (j : Text) (ks : List Text) → IsOrdered (j ∷ ks) → IsOrdered ks
IsOrdered-tail j [] o = tt
IsOrdered-tail j (i ∷ ks) o = o.1

insert_text-IsOrdered : (k : Text) (ks : List Text) → IsOrdered ks → IsOrdered (insert_text k ks)
unfolding insert_text
insert_text-IsOrdered k [] o = tt
insert_text-IsOrdered k (j ∷ ks) o = elim (Bool-cases (text_lt j k)) [
  | inl e ↦
      rw e (
        insert_text-IsOrdered_below k j ks e o (insert_text-IsOrdered k ks (IsOrdered-tail j ks o)))
  | inr e ↦ rw e (e, o)
]

pub sort_texts-IsOrdered : (ks : List Text) → IsOrdered (sort_texts ks)
unfolding sort_texts
sort_texts-IsOrdered [] = tt
sort_texts-IsOrdered (k ∷ ks) = insert_text-IsOrdered k _ (sort_texts-IsOrdered ks)

insert_text-perm : (k : Text) (ks : List Text) → Perm (insert_text k ks) (k ∷ ks)
unfolding insert_text
insert_text-perm k [] = Perm.refl _
insert_text-perm k (j ∷ ks) = elim (Bool-cases (text_lt j k)) [
  | inl e ↦ rw e (Perm.trans (Perm.cons j (insert_text-perm k ks)) (Perm.swap k j ks))
  | inr e ↦ rw e (Perm.refl _)
]

pub sort_texts-perm : (ks : List Text) → Perm (sort_texts ks) ks
unfolding sort_texts
sort_texts-perm [] = Perm.refl _
sort_texts-perm (k ∷ ks) = Perm.trans (insert_text-perm k _) (Perm.cons k (sort_texts-perm ks))

is_one_of-insert_text :
    (t k : Text) (ks : List Text) → is_one_of t (insert_text k ks) ≡ (t == k || is_one_of t ks)
unfolding insert_text is_one_of
is_one_of-insert_text t k [] = refl
is_one_of-insert_text t k (j ∷ ks) = elim (Bool-cases (text_lt j k)) [
  | inl e ↦ rw e (rw (is_one_of-insert_text t k ks) (ground arith))
  | inr e ↦ rw e refl
]

-- Sorting loses no text and adds none.
pub is_one_of-sort_texts :
    (t : Text) (ks : List Text) → is_one_of t (sort_texts ks) ≡ is_one_of t ks
unfolding sort_texts is_one_of
is_one_of-sort_texts t [] = refl
is_one_of-sort_texts t (k ∷ ks) =
    is_one_of-insert_text t k (sort_texts ks) ∙ rw (is_one_of-sort_texts t ks) refl
