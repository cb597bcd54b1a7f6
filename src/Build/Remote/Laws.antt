-- ===== src/Build/Remote/Laws.antt =====
-- What a download that succeeds has been through.
use docker_in_k8s.Common.{
  ℕ, suc, ◌+◌, ◌≤◌, ◌<◌, ◌||◌, ||-eq-false, ap, ◌≡◌, refl, ◌∙◌, arith, not, Bool, true, false, List,
  [], ◌∷◌, is_nil, ltb, leb, length, All, subst,
}
use docker_in_k8s.Text.{Text, codes, ◌==◌, eq_iff}
use docker_in_k8s.Result.{Result, ok, err, wrap, >>=-eq-ok, behind_test, ok-injective, err-ne-ok}
use docker_in_k8s.Build.Remote.{
  Url, checked_url, validate_remote_url, refuse, Response, Remote, check_redirects, is_longer,
  stored, download_remote_input,
}

refuse-eq-ok : (test : Bool) (text : Text) {u : Unit {0}} → refuse test text ≡ ok u → test ≡ false
refuse-eq-ok true text h = absurd (err-ne-ok h)
refuse-eq-ok false text h = refl

wrap-eq-ok : {A : Type 0} (text : Text) (r : Result A) {a : A} → wrap text r ≡ ok a → r ≡ ok a
wrap-eq-ok text (ok a) h = h
wrap-eq-ok text (err e) h = absurd (err-ne-ok h)

-- A URL of HTTPS with a host and without credentials.
abbrev pub IsSafe : Url → Type 0
IsSafe url = (url.user ≡ false) × (url.scheme ≡ codes "https") × (is_nil url.host ≡ false)

true_of_not : (b : Bool) → not b ≡ false → b ≡ true
true_of_not true h = refl
true_of_not false h = cc

checked_url-IsSafe :
    (url checked : Url) → checked_url url ≡ ok checked → IsSafe url × (url ≡ checked)
checked_url-IsSafe url checked h =
    let (no_user, h1) = behind_test url.user _ _ h in
    let (https, h2) = behind_test (not (url.scheme == codes "https")) _ _ h1 in
    let (some_host, h3) = behind_test (is_nil url.host) _ _ h2 in
    ((no_user, (eq_iff _ _).0 (true_of_not _ https), some_host), ok-injective h3)

module _ (r : Remote) where
  -- A text that is parsed as a safe URL.
  abbrev pub IsVerified : Text → Type 0
  IsVerified value = (url : Url) × (r.parse_url value ≡ ok url) × IsSafe url

  validate_remote_url-IsSafe :
      (value : Text) (url : Url)
      → validate_remote_url r.parse_url value ≡ ok url
      → (r.parse_url value ≡ ok url) × IsSafe url
  unfolding validate_remote_url
  validate_remote_url-IsSafe value url h =
      let (parsed, is_parsed, rest) = >>=-eq-ok (r.parse_url value) _ h in
      let (safe, same) = checked_url-IsSafe parsed url rest in
      subst (λ u. (r.parse_url value ≡ ok u) × IsSafe u) same (is_parsed, safe)

  check_redirects-All :
      (redirects : ℕ) (urls : List Text)
      → redirects ≤ 5
      → check_redirects r redirects urls ≡ ok tt
      → All IsVerified urls × (redirects + length urls ≤ 5)
  unfolding check_redirects
  check_redirects-All redirects [] few h = (tt, omega arith)
  check_redirects-All redirects (url ∷ urls) few h =
      let (u, counted, h1) = >>=-eq-ok (refuse (ltb 5 (suc redirects)) _) _ h in
      let (checked, valid, h2) =
        >>=-eq-ok (wrap (codes "unsafe remote redirect") (validate_remote_url r.parse_url url)) _
          h1 in
      let next = refuse-eq-ok (ltb 5 (suc redirects)) _ counted in
      let (verified, within) =
        check_redirects-All (suc redirects) urls (one_more redirects next) h2 in
      let (parsed, safe) =
        validate_remote_url-IsSafe url checked
          (wrap-eq-ok _ (validate_remote_url r.parse_url url) valid) in
      (((checked, parsed, safe), verified), omega arith)
    where
      one_more : (n : ℕ) → ltb 5 (suc n) ≡ false → suc n ≤ 5
      one_more n h = ground arith

  -- What was stored: all of a response of status 200 to 299, within the limit.
  abbrev pub IsStored : ℕ → Response → Text → Type 0
  IsStored most response path =
      (200 ≤ response.status)
      × (response.status < 300)
      × ((written : ℕ) × (response.save (most + 1) ≡ ok (path, written)) × (written ≤ most))

  stored-IsStored :
      (most : ℕ) (response : Response) (path : Text)
      → stored r most response ≡ ok path
      → IsStored most response path
  stored-IsStored most response path h =
      let (u, status, h1) =
        >>=-eq-ok (refuse (ltb response.status 200 || leb 300 response.status) _) _ h in
      let (v, sized, h2) = >>=-eq-ok (refuse (is_longer r response.content_length most) _) _ h1 in
      let ((path', written), saved, h3) = >>=-eq-ok (response.save (most + 1)) _ h2 in
      let (w, whole, h4) = >>=-eq-ok (refuse (ltb most written) _) _ h3 in
      let (above, below) = ||-eq-false (ltb response.status 200) _ (refuse-eq-ok _ _ status) in
      (
        at_least _ above,
        less _ below,
        (
          written,
          saved ∙ ap (λ (p : Text). ok (p, written)) (ok-injective h4),
          within most written (refuse-eq-ok _ _ whole),
        ),
      )
    where
      at_least : (n : ℕ) → ltb n 200 ≡ false → 200 ≤ n
      at_least n h = ground arith

      less : (n : ℕ) → leb 300 n ≡ false → n < 300
      less n h = ground arith

      within : (m n : ℕ) → ltb m n ≡ false → n ≤ m
      within m n h = ground arith

  -- A download of at most so many bytes: no request but those of verified URLs, the first of which is
  -- the one given, with at most five redirects.
  abbrev pub IsDownload : Text → ℕ → Text → Type 0
  IsDownload value most path =
      (url : Url) × (r.parse_url value ≡ ok url)
      × IsSafe url
      × All IsVerified (r.get url).0
      × (length (r.get url).0 ≤ 5)
      × ((response : Response) × ((r.get url).1 ≡ ok response) × IsStored most response path)

  -- A download that succeeds requested the URL that was given and at most five others that it was
  -- redirected to, each an HTTPS URL with a host and without credentials, and stored the body of
  -- a response with status 200 to 299 that has no more bytes than the limit.
  pub download_remote_input-IsDownload :
      (value : Text) (most : ℕ) (path : Text)
      → download_remote_input r value most ≡ ok path
      → IsDownload value most path
  unfolding download_remote_input
  download_remote_input-IsDownload value most path h =
      let (url, valid, h1) = >>=-eq-ok (validate_remote_url r.parse_url value) _ h in
      let (u, followed, h2) = >>=-eq-ok (check_redirects r 0 (r.get url).0) _ h1 in
      let (response, got, h3) = >>=-eq-ok (r.get url).1 _ h2 in
      let (parsed, safe) = validate_remote_url-IsSafe value url valid in
      let (verified, few) = check_redirects-All 0 (r.get url).0 (omega arith) followed in
      (
        url,
        parsed,
        safe,
        verified,
        from_none _ few,
        (response, got, stored-IsStored most response path h3),
      )
    where
      from_none : (n : ℕ) → 0 + n ≤ 5 → n ≤ 5
      from_none n h = omega arith
