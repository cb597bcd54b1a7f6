-- ===== src/Build/Context/Laws.antt =====
-- The files that credentials were read from are not sent with the context.
use docker_in_k8s.Common.{
  ℕ, eqb, eqb_iff, ◌&&◌, arith, ◌≡◌, refl, ◌∙◌, sym, ap, ◌≢◌, inl, inr, ◌||◌, Bool, true, false,
  none, List, [], ◌∷◌, ◌++◌, is_nil, All, All-map_of, Bool-cases,
}
use docker_in_k8s.Text.{Text, codes, ◌==◌, eq_refl, eq-false, is_one_of, join, has_prefix, IsName}
use docker_in_k8s.Result.{Result, ok}
use docker_in_k8s.Build.Credentials.{Credential}
use docker_in_k8s.Build.Context.{
  rel_parts, rel, path_parts, leaves, excluded, exclude_build_credential_sources, PreparedContext,
  FileInfo, context_entry,
}

rel_parts-append : (base parts : List Text) → rel_parts base (base ++ parts) ≡ parts
unfolding rel_parts
rel_parts-append [] parts = refl
rel_parts-append (b ∷ base) parts = rw (eq_refl b) (rel_parts-append base parts)

-- The rest of a path behind a part.
abbrev Behind : Text → Type 0
Behind [] = Unit
Behind (c ∷ t) = c ≡ b'/'

one_dot : (x : ℕ) (rest : Text) → Behind rest → has_prefix (x ∷ rest) (codes "../") ≡ false
unfolding has_prefix
one_dot x [] h = ground arith
one_dot x (c ∷ t) h = rw h (ground arith)

two_dots :
    (x y : ℕ) (rest : Bool) → x ∷ y ∷ [] ≢ codes ".." → (eqb x b'.' && (eqb y b'.' && rest)) ≡ false
two_dots x y rest ne = elim (Bool-cases (eqb x b'.')) [
  | inr e ↦ rw e refl
  | inl e ↦ elim (Bool-cases (eqb y b'.')) [
    | inr d ↦ rw (e, d) refl
    | inl d ↦ absurd (ne (cc ((eqb_iff x b'.').0 e, (eqb_iff y b'.').0 d)))
  ]
]

-- A name below the root does not lead out of it.
not_up :
    (part : Text) (rest : Text)
    → IsName part
    → Behind rest
    → has_prefix (part ++ rest) (codes "../") ≡ false
unfolding has_prefix
not_up [] rest h k = absurd (h.0 refl)
not_up (x ∷ []) rest h k = one_dot x rest k
not_up (x ∷ y ∷ []) rest h k = two_dots x y (has_prefix rest (codes "/")) h.2
not_up (x ∷ y ∷ z ∷ part) rest h k = rw (ne_eqb z h.3.1.1.0) (ground arith)
  where
    ne_eqb : (z : ℕ) → z ≢ b'/' → eqb z b'/' ≡ false
    ne_eqb z h = ground arith

append_nil : (t : Text) → t ++ [] ≡ t
append_nil [] = refl
append_nil (x ∷ t) = ap (λ (s : Text). x ∷ s) (append_nil t)

longer : (part t : Text) → (part ++ b'/' ∷ t == codes "..") ≡ false
unfolding ◌==◌
longer [] t = refl
longer (x ∷ []) t = ground arith
longer (x ∷ y ∷ []) t = ground arith
longer (x ∷ y ∷ z ∷ part) t = ground arith

not_leaves : (parts : List Text) → parts ≢ [] → All IsName parts → leaves (join parts b'/') ≡ false
unfolding join
not_leaves [] ne h = absurd (ne refl)
not_leaves (part ∷ []) ne (h, k) =
    rw
      (
        eq-false part (codes "..") h.2,
        ap (λ (t : Text). has_prefix t (codes "../")) (sym (append_nil part)) ∙ not_up part [] h tt,
      )
      refl
not_leaves (part ∷ next ∷ parts) ne (h, k) =
    rw
      (longer part (join (next ∷ parts) b'/'), not_up part (b'/' ∷ join (next ∷ parts) b'/') h refl)
      refl

-- A path below the root, by the names that lead to it.
abbrev pub IsBelow : Text → List Text → Text → Type 0
IsBelow root parts path =
    (path_parts path ≡ path_parts root ++ parts)
    × (parts ≢ [])
    × All IsName parts
    × (is_nil path ≡ false)

rel-eq-join :
    (root path : Text) (parts : List Text)
    → IsBelow root parts path
    → rel root path ≡ join parts b'/'
unfolding rel
rel-eq-join root path [] h = absurd (h.1 refl)
rel-eq-join root path (part ∷ parts) h =
    rw h.0 (rw (rel_parts-append (path_parts root) (part ∷ parts)) refl)

is_one_of-later :
    (t u : Text) (ts : List Text) → is_one_of t ts ≡ true → is_one_of t (u ∷ ts) ≡ true
unfolding is_one_of
is_one_of-later t u ts h = ground arith

excluded-All :
    (root : Text) (credentials : List Credential)
    → All
        (λ (s : Credential).
          (parts : List Text)
          → IsBelow root parts s.source
          → is_one_of (join parts b'/') (excluded root credentials) ≡ true)
        credentials
unfolding excluded is_one_of
excluded-All root [] = tt
excluded-All root (s ∷ rest) = (first, All-map_of later rest (excluded-All root rest))
  where
    first :
        (parts : List Text)
        → IsBelow root parts s.source
        → is_one_of (join parts b'/') (excluded root (s ∷ rest)) ≡ true
    first parts h =
        rw
          (
            h.3,
            ap leaves (rel-eq-join root s.source parts h) ∙ not_leaves parts h.1 h.2,
            rel-eq-join root s.source parts h,
            eq_refl (join parts b'/'),
          )
          refl

    later :
        (k : Credential)
        → ((parts : List Text)
            → IsBelow root parts k.source
            → is_one_of (join parts b'/') (excluded root rest) ≡ true)
        → (parts : List Text) → IsBelow root parts k.source
        → is_one_of (join parts b'/') (excluded root (s ∷ rest)) ≡ true
    later k ih parts h = elim (Bool-cases (is_nil s.source || leaves (rel root s.source))) [
      | inl e ↦ rw e (ih parts h)
      | inr e ↦
          rw e (
            is_one_of-later (join parts b'/') (rel root s.source) (excluded root rest) (ih parts h))
    ]

-- With the sources of the credentials excluded, an entry of the context from which one of them was read
-- is not written.
pub credential-not-written :
    (ignored : Text → Result Bool) (ctx : PreparedContext) (secrets ssh : List Credential)
    → All
        (λ (s : Credential).
          (parts : List Text) (info : FileInfo)
          → IsBelow ctx.root parts s.source
          → context_entry ignored
              (exclude_build_credential_sources ctx secrets ssh)
              (record { path = join parts b'/'; info = info })
            ≡ ok none)
        (secrets ++ ssh)
unfolding context_entry exclude_build_credential_sources
credential-not-written ignored ctx secrets ssh =
    All-map_of not_written (secrets ++ ssh) (excluded-All ctx.root (secrets ++ ssh))
  where
    not_written :
        (s : Credential)
        → ((parts : List Text)
            → IsBelow ctx.root parts s.source
            → is_one_of (join parts b'/') (excluded ctx.root (secrets ++ ssh)) ≡ true)
        → (parts : List Text) (info : FileInfo) → IsBelow ctx.root parts s.source
        → context_entry ignored
            (exclude_build_credential_sources ctx secrets ssh)
            (record { path = join parts b'/'; info = info })
          ≡ ok none
    not_written s within parts info h = elim (Bool-cases (join parts b'/' == codes ".")) [
      | inl e ↦ rw e refl
      | inr e ↦ rw (e, within parts h) refl
    ]
