-- ===== src/Access/Tokens.antt =====
-- Who passes the token check.
use url_shortner.Prelude.{
  ◌≡◌, ◌↔◌, ◌⊎◌, inl, inr, ◌∙◌, ap, refl, true, false, Option, none, some, [], ◌∷◌, ◌++◌, arith,
  Bool-cases,
}
use url_shortner.Text.{Text, codes, text_eq_iff, is_empty, trim_space}
use url_shortner.Access.{TokenHeaders, cut_prefix, token_matches, bearer_matches, authorized}

cut_prefix-append : (p s : Text) → cut_prefix p (p ++ s) ≡ some s
unfolding cut_prefix
cut_prefix-append [] s = refl
cut_prefix-append (c ∷ p) s = ground (arith, cut_prefix-append p s)

cut_prefix-some : (p s rest : Text) → cut_prefix p s ≡ some rest → s ≡ p ++ rest
unfolding cut_prefix
cut_prefix-some [] s rest h = cc
cut_prefix-some (c ∷ p) [] rest h = absurd (ground arith)
cut_prefix-some (c ∷ p) (d ∷ s) rest h = ground (arith, cut_prefix-some p s rest)

module _ (sha256 : Text → Text) (expected : Text) (there : is_empty expected ≡ false) where
  -- A text that is there and has the digest of the token.
  abbrev pub Presents : Text → Type 0
  Presents t = (is_empty t ≡ false) × (sha256 t ≡ sha256 expected)

  token_matches_iff : (t : Text) → (token_matches sha256 t expected ≡ true) ↔ Presents t
  unfolding token_matches
  token_matches_iff t = ground (arith, text_eq_iff (sha256 t) (sha256 expected))

  -- The documented headers that present the token: the diagnostics header is a text with its digest,
  -- or the authorization is "Bearer " and such a text, up to white space round each.
  abbrev pub Carries : TokenHeaders → Type 0
  Carries r =
      Presents r.diagnostics_token
      ⊎ ((bearer : Text) × (trim_space r.authorization ≡ codes "Bearer " ++ bearer)
          × Presents (trim_space bearer))

  bearer_passes :
      (a : Text) (o : Option Text)
      → cut_prefix (codes "Bearer ") a ≡ o
      → bearer_matches sha256 o expected ≡ true
      → (bearer : Text) × (a ≡ codes "Bearer " ++ bearer) × Presents (trim_space bearer)
  unfolding bearer_matches
  bearer_passes a none cut h = absurd (ground arith)
  bearer_passes a (some bearer) cut h = (
    bearer,
    cut_prefix-some (codes "Bearer ") a bearer cut,
    (token_matches_iff (trim_space bearer)).0 h,
  )

  no_admin : (t : Text) → t ≡ [] → token_matches sha256 t expected ≡ false
  unfolding token_matches is_empty
  no_admin t e = rw e refl

  passes : (r : TokenHeaders) → r.admin_token ≡ [] → authorized sha256 r expected ≡ true → Carries r
  unfolding authorized
  passes r absent h = elim (Bool-cases (token_matches sha256 r.diagnostics_token expected)) [
    | inl first ↦ inl ((token_matches_iff r.diagnostics_token).0 first)
    | inr not_first ↦
        let not_second = no_admin r.admin_token absent in
        inr (bearer_passes (trim_space r.authorization) _ refl (ground arith))
  ]

  carried : (r : TokenHeaders) → Carries r → authorized sha256 r expected ≡ true
  unfolding authorized
  carried r (inl p) = ground (arith, token_matches_iff r.diagnostics_token)
  carried r (inr (bearer, e, p)) =
      let cut : cut_prefix (codes "Bearer ") (trim_space r.authorization) ≡ some bearer =
        rw e (cut_prefix-append (codes "Bearer ") bearer) in
      let last : bearer_matches sha256 (some bearer) expected ≡ true =
        unfold bearer_matches in (token_matches_iff (trim_space bearer)).1 p in
      let bears = ap (λ (o : Option Text). bearer_matches sha256 o expected) cut ∙ last in
      ground arith

  -- With a token that is set, a request that names no X-Admin-Token is authorized exactly if one of
  -- the two documented headers presents a text with the digest of the token: X-Diagnostics-Token,
  -- or Authorization after "Bearer ".
  pub authorized_iff :
      (r : TokenHeaders) → r.admin_token ≡ [] → (authorized sha256 r expected ≡ true) ↔ Carries r
  authorized_iff r absent = (passes r absent, carried r)
