-- ===== src/Http/Patch/Refusals.antt =====
-- A PATCH either shows the link of one change that went through, or leaves every link as it was.
use url_shortner.Prelude.{
  ℕ, ◌≡◌, ◌∙◌, sym, ap, refl, Option, none, some, inl, inr, Bool-cases, ◌==◌,
}
use url_shortner.Text.{Text, is_empty, trim_space}
use url_shortner.Time.{Time}
use url_shortner.Errors.{Result, ok, err}
use url_shortner.Net.{UrlLib}
use url_shortner.Domain.Status.{LinkStatus}
use url_shortner.Domain.Link.{Link}
use url_shortner.Ports.{Context, LinkRepository, Clock}
use url_shortner.Ports.Laws.{Table, RepositoryLaws, ClockLaws}
use url_shortner.Application.Management.Change.{
  ChangeRequest, status, destination, expiration, code_of, owner_of, version_of, change,
}
use url_shortner.Application.Management.Outcome.{change_err}
use url_shortner.Http.{Response, refused, shown, mutation_error_code, parse_if_match}
use url_shortner.Http.Patch.{
  PatchBody, PatchRequest, provided_fields, respond, patch_status, patch_destination,
  patch_expiration, patch_field, patch_body, patch_version, patch,
}

module _ {S : Type 0} (repository : LinkRepository S) (clock : Clock S) (lib : UrlLib)
    (parse_time : Text → Option Time) {table : S → Table} (laws : RepositoryLaws repository table)
    (clock_laws : ClockLaws table clock) (ctx : Context) where
  -- What a response to a PATCH with this owner, code and version stands for.
  abbrev pub Told : Text → Text → ℕ → S → Response × S → Type 0
  Told owner code version s (refused n, s') = table s' ≡ table s
  Told owner code version s (shown l, s') =
      (r : ChangeRequest) × (code_of r ≡ trim_space code)
      × (owner_of r ≡ trim_space owner)
      × (version_of r ≡ version)
      × (change repository clock lib ctx r s ≡ (ok l, s'))

  respond-Told :
      (owner code : Text) (version : ℕ) (r : ChangeRequest) (s : S) (o : Result Link × S)
      → code_of r ≡ trim_space code
      → owner_of r ≡ trim_space owner
      → version_of r ≡ version
      → change repository clock lib ctx r s ≡ o
      → Told owner code version s (respond mutation_error_code o)
  unfolding respond
  respond-Told owner code version r s (ok l, s') a b c h = (r, a, b, c, h)
  respond-Told owner code version r s (err e, s') a b c h =
      ap (λ (o : Result Link × S). table o.1) (sym h)
      ∙ change_err repository clock lib laws clock_laws ctx r s e
          (ap (λ (o : Result Link × S). o.0) h)

  module _ (owner code : Text) (version : ℕ) where
    patch_status-Told :
        (parsed : Result LinkStatus) (s : S)
        → Told owner code version s
            (patch_status repository clock lib parse_time ctx owner code version parsed s)
    unfolding patch_status change
    patch_status-Told (err e) s = refl
    patch_status-Told (ok st) s =
        let r : ChangeRequest =
          status
            (record { code = code; owner_id = owner; status = st; expected_version = version }) in
        respond-Told owner code version r s _ refl refl refl refl

    patch_destination-Told :
        (d : Text) (s : S)
        → Told owner code version s
            (patch_destination repository clock lib parse_time ctx owner code version d s)
    unfolding patch_destination change
    patch_destination-Told d s =
        let r : ChangeRequest =
          destination (record {
            code = code;
            owner_id = owner;
            destination = d;
            expected_version = version;
          }) in
        respond-Told owner code version r s _ refl refl refl refl

    patch_expiration-Told :
        (parsed : Option (Option Time)) (s : S)
        → Told owner code version s
            (patch_expiration repository clock lib parse_time ctx owner code version parsed s)
    unfolding patch_expiration change
    patch_expiration-Told none s = refl
    patch_expiration-Told (some e) s =
        let r : ChangeRequest =
          expiration (record {
            code = code;
            owner_id = owner;
            expires_at = e;
            expected_version = version;
          }) in
        respond-Told owner code version r s _ refl refl refl refl

    patch_field-Told :
        (a b c : Option Text) (s : S)
        → Told owner code version s
            (patch_field repository clock lib parse_time ctx owner code version a b c s)
    unfolding patch_field
    patch_field-Told (some a) b c s = patch_status-Told _ s
    patch_field-Told none (some b) c s = patch_destination-Told b s
    patch_field-Told none none (some c) s = patch_expiration-Told _ s
    patch_field-Told none none none s = refl

    patch_body-Told :
        (body : Option PatchBody) (s : S)
        → Told owner code version s
            (patch_body repository clock lib parse_time ctx owner code version body s)
    unfolding patch_body
    patch_body-Told none s = refl
    patch_body-Told (some body) s = elim (Bool-cases (provided_fields body == 1)) [
      | inl one ↦ rw one (patch_field-Told body.status body.destination body.expires_at s)
      | inr other ↦ rw other refl
    ]

  -- What a response to a PATCH stands for, over all versions of the If-Match header.
  abbrev pub Answered : PatchRequest → S → Response × S → Type 0
  Answered q s (refused n, s') = table s' ≡ table s
  Answered q s (shown l, s') =
      (version : ℕ) × (parse_if_match (trim_space q.if_match_header) ≡ ok version)
      × Told (trim_space q.owner_header) q.code version s (shown l, s')

  Told→Answered :
      (q : PatchRequest) (version : ℕ) (s : S) (o : Response × S)
      → parse_if_match (trim_space q.if_match_header) ≡ ok version
      → Told (trim_space q.owner_header) q.code version s o
      → Answered q s o
  Told→Answered q version s (refused n, s') e told = told
  Told→Answered q version s (shown l, s') e told = (version, e, told)

  version-Answered :
      (q : PatchRequest) (parsed : Result ℕ) (s : S)
      → parse_if_match (trim_space q.if_match_header) ≡ parsed
      → Answered q s
          (patch_version repository clock lib parse_time ctx (trim_space q.owner_header) q parsed s)
  unfolding patch_version
  version-Answered q (err e) s h = refl
  version-Answered q (ok version) s h =
      Told→Answered q version s _ h
        (patch_body-Told (trim_space q.owner_header) q.code version q.body s)

  -- A PATCH that is refused, with whatever status code, leaves every link as it was; one that shows
  -- a link made exactly one change, of the requested code, for the owner of the header and at the
  -- version of the If-Match header, and shows the link and leaves the state of that change.
  pub patch-Answered :
      (q : PatchRequest) (s : S) → Answered q s (patch repository clock lib parse_time ctx q s)
  unfolding patch
  patch-Answered q s = elim (Bool-cases (is_empty (trim_space q.owner_header))) [
    | inl nobody ↦ rw nobody refl
    | inr somebody ↦ elim (Bool-cases (is_empty (trim_space q.if_match_header))) [
      | inl missing ↦ rw (somebody, missing) refl
      | inr there ↦
          rw (somebody, there)
            (version-Answered q (parse_if_match (trim_space q.if_match_header)) s refl)
    ]
  ]
