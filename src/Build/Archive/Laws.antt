-- ===== src/Build/Archive/Laws.antt =====
-- Where the entries of an archive are written, and how much.
use docker_in_k8s.Common.{
  ℕ, ◌++◌, ◌+◌, ◌^◌, ◌≤◌, ◌<◌, ◌≡◌, refl, ◌↔◌, ◌⊎◌, ◌&&◌, ◌||◌, not, Bool, true, false, Option,
  none, some, arith, ltb, if◌then◌else◌, subst,
}
use docker_in_k8s.Text.{Text, codes, clean, IsInside, clean-IsInside}
use docker_in_k8s.Result.{ok, err, Error, message, >>=-eq-ok, ok-injective, err-ne-ok}
use docker_in_k8s.Build.Archive.{
  Kind, directory, regular, symlink, other, Header, Operation, skip, make_dirs, create, link, limit,
  add64, is_negative, add_size, safe_name, below, archive_named, archive_entry, local_named,
  local_entry,
}

-- Where an operation writes.
abbrev pub WritesBelow : Text → Operation → Type 0
WritesBelow root skip = Unit
WritesBelow root (make_dirs path mode) = (name : Text) × (path ≡ below root name) × IsInside name
WritesBelow root (create path mode size) = (name : Text) × (path ≡ below root name) × IsInside name
WritesBelow root (link to path) = (name : Text) × (path ≡ below root name) × IsInside name

abbrev NameInside : Option Text → Type 0
NameInside none = Unit
NameInside (some name) = IsInside name

safe_name-NameInside :
    (what : Text) (h : Header) (o : Option Text) → safe_name what h ≡ ok o → NameInside o
unfolding safe_name
safe_name-NameInside what h o = by_tests _ _ o (λ safe. clean-IsInside h.name safe)
  where
    by_tests :
        (self unsafe : Bool) (o : Option Text)
        → (unsafe ≡ false → IsInside (clean h.name))
        → (if self
            then ok none
            else if unsafe
            then err (message (codes "unsafe path in " ++ what))
            else ok (some (clean h.name)))
          ≡ ok o
        → NameInside o
    by_tests true unsafe o inside e = subst NameInside (ok-injective e) tt
    by_tests false true o inside e = absurd (err-ne-ok e)
    by_tests false false o inside e = subst NameInside (ok-injective e) (inside refl)

archive_named-WritesBelow :
    (root : Text) (total : ℕ) (h : Header) (kind : Kind) (o : Option Text) (op : Operation)
    (total' : ℕ)
    → h.kind ≡ kind
    → NameInside o
    → archive_named root total h o ≡ ok (op, total')
    → WritesBelow root op
archive_named-WritesBelow root total h kind none op total' k inside =
    λ e. subst (λ (x : Operation × ℕ). WritesBelow root x.0) (ok-injective e) tt
archive_named-WritesBelow root total h directory (some name) op total' k inside =
    rw k (λ e.
      subst (λ (x : Operation × ℕ). WritesBelow root x.0) (ok-injective e) (name, refl, inside))
archive_named-WritesBelow root total h regular (some name) op total' k inside = rw k (λ e.
    let (t, added, made) = >>=-eq-ok (add_size total h.size) _ e in
    subst (λ (x : Operation × ℕ). WritesBelow root x.0) (ok-injective made) (name, refl, inside))
archive_named-WritesBelow root total h symlink (some name) op total' k inside =
    rw k (λ e.
      subst (λ (x : Operation × ℕ). WritesBelow root x.0) (ok-injective e) (name, refl, inside))
archive_named-WritesBelow root total h other (some name) op total' k inside =
    rw k (λ e. absurd (err-ne-ok e))

-- Where an entry of a context archive is accepted, the path that is written lies below the root
-- and has no step up, whatever the name in its header.
pub archive_entry-WritesBelow :
    (root : Text) (total : ℕ) (h : Header) (op : Operation) (total' : ℕ)
    → archive_entry root total h ≡ ok (op, total')
    → WritesBelow root op
unfolding archive_entry
archive_entry-WritesBelow root total h op total' e =
    let (o, named, rest) = >>=-eq-ok (safe_name (codes "build context archive") h) _ e in
    archive_named-WritesBelow root total h h.kind o op total' refl
      (safe_name-NameInside _ h o named) rest

-- An operation that makes no link.
abbrev pub IsPlain : Operation → Type 0
IsPlain (link to path) = ⊥
IsPlain _ = Unit

local_named-IsPlain :
    (root : Text) (h : Header) (kind : Kind) (o : Option Text) (op : Operation)
    → h.kind ≡ kind
    → NameInside o
    → local_named root h o ≡ ok op
    → WritesBelow root op × IsPlain op
local_named-IsPlain root h kind none op k inside =
    λ e. subst (λ (x : Operation). WritesBelow root x × IsPlain x) (ok-injective e) (tt, tt)
local_named-IsPlain root h directory (some name) op k inside = rw k (λ e.
    subst (λ (x : Operation). WritesBelow root x × IsPlain x) (ok-injective e)
      ((name, refl, inside), tt))
local_named-IsPlain root h regular (some name) op k inside = rw k (λ e.
    subst (λ (x : Operation). WritesBelow root x × IsPlain x) (ok-injective e)
      ((name, refl, inside), tt))
local_named-IsPlain root h symlink (some name) op k inside = rw k (λ e. absurd (err-ne-ok e))
local_named-IsPlain root h other (some name) op k inside = rw k (λ e. absurd (err-ne-ok e))

pub local_entry-IsPlain :
    (root : Text) (h : Header) (op : Operation)
    → local_entry root h ≡ ok op
    → WritesBelow root op × IsPlain op
unfolding local_entry
local_entry-IsPlain root h op e =
    let (o, named, rest) = >>=-eq-ok (safe_name (codes "local output") h) _ e in
    local_named-IsPlain root h h.kind o op refl (safe_name-NameInside _ h o named) rest

refused :
    {A : Type 0} (test : Bool) (e : Error) (a b : A)
    → (if test then err e else ok a) ≡ ok b
    → test ≡ false
refused true e a b h = absurd (err-ne-ok h)
refused false e a b h = refl

abbrev too_much : ℕ → ℕ → Bool
too_much total size =
    is_negative size || (not (is_negative (add64 total size)) && ltb limit (add64 total size))

too_much-eq-false :
    (total size : ℕ)
    → total ≤ limit
    → size < 2 ^ 63
    → too_much total size ≡ false
    → (total + size ≤ limit) ⊎ (2 ^ 63 ≤ total + size)
too_much-eq-false total size small positive h = ground arith

not-too_much :
    (total size : ℕ)
    → total ≤ limit
    → size < 2 ^ 63
    → (total + size ≤ limit) ⊎ (2 ^ 63 ≤ total + size)
    → too_much total size ≡ false
not-too_much total size small positive h = ground arith

-- From a total within the limit of 2 GiB, the size of a file, which is below 2^63, is accepted if
-- and only if it keeps the sum within the limit or takes it to 2^63 or more, out of 64 bits.
pub add_size-accepts :
    (total size : ℕ)
    → total ≤ limit
    → size < 2 ^ 63
    → ((total' : ℕ) × (add_size total size ≡ ok total'))
      ↔ ((total + size ≤ limit) ⊎ (2 ^ 63 ≤ total + size))
unfolding add_size
add_size-accepts total size small positive = (
  λ (total', h). too_much-eq-false total size small positive (refused _ _ _ total' h),
  λ h. (add64 total size, rw (not-too_much total size small positive h) refl),
)
