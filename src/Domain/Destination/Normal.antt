-- ===== src/Domain/Destination/Normal.antt =====
-- What NewDestinationURL accepts and returns, over the documented behaviour of net/url.
use url_shortner.Prelude.{
  ℕ, ◌≡◌, ◌↔◌, ◌∙◌, inl, inr, sym, ap, refl, true, false, some, [], ◌∷◌, arith, Option-cases,
}
use url_shortner.Text.{Text, is_empty, trim_space, to_lower, to_lower_rune}
use url_shortner.Errors.{ok}
use url_shortner.Net.{Url, UrlLib, UrlLaws, lowered}
use url_shortner.Domain.Destination.{DestinationUrl, is_web, new_destination_url, is_zero}

module _ (lib : UrlLib) where
  -- A raw destination that is a web URL with a host, and how it is stored.
  pub record Accepted (raw : Text) (d : DestinationUrl) : Type 0 where
    pub url : Url
    pub there : is_empty (trim_space raw) ≡ false
    pub parses : lib.parse_request_uri (trim_space raw) ≡ some url
    pub schemed : is_empty url.scheme ≡ false
    pub web : is_web (lowered lib url).scheme ≡ true
    pub hosted : is_empty url.host ≡ false
    pub stored : d.value ≡ lib.to_string (lowered lib url)

  accepts : (raw : Text) (d : DestinationUrl) → new_destination_url lib raw ≡ ok d → Accepted raw d
  unfolding new_destination_url
  accepts raw d h = elim (Option-cases (lib.parse_request_uri (trim_space raw))) [
    | inl e ↦ absurd (ground arith)
    | inr (u, e) ↦ record {
      url = u;
      there = ground arith;
      parses = e;
      schemed = ground arith;
      web = ground arith;
      hosted = ground arith;
      stored = ground arith;
    }
  ]

  accepted : (raw : Text) (d : DestinationUrl) → Accepted raw d → new_destination_url lib raw ≡ ok d
  unfolding new_destination_url
  accepted raw d a = ground (arith, a.parses)

  -- NewDestinationURL returns a destination exactly if the trimmed text is there and parses to a
  -- URL with a scheme that is http or https in lower case and with a host; the destination is the
  -- printed URL with scheme and host in lower case.
  pub new_destination_url_iff :
      (raw : Text) (d : DestinationUrl) → (new_destination_url lib raw ≡ ok d) ↔ Accepted raw d
  new_destination_url_iff raw d = (accepts raw d, accepted raw d)

  module _ (laws : UrlLaws lib) where
    string-ne-empty : (u : Url) → is_empty u.scheme ≡ false → is_empty (lib.to_string u) ≡ false
    unfolding is_empty
    string-ne-empty u h = ground (arith, laws.string_scheme u)

    to_lower-there :
        (s : Text) → is_empty s ≡ false → is_empty (to_lower lib.lower_beyond s) ≡ false
    unfolding is_empty to_lower
    to_lower-there [] h = h
    to_lower-there (c ∷ s) h = refl

    value_there : {raw : Text} {d : DestinationUrl} → Accepted raw d → is_empty d.value ≡ false
    value_there a =
        rw a.stored (string-ne-empty (lowered lib a.url) (to_lower-there a.url.scheme a.schemed))

    -- A destination that NewDestinationURL returns is not the zero destination.
    pub new_destination_url-there :
        (raw : Text) (d : DestinationUrl) → new_destination_url lib raw ≡ ok d → is_zero d ≡ false
    unfolding is_zero
    new_destination_url-there raw d h = value_there (accepts raw d h)

    to_lower_rune_idem :
        (c : ℕ)
        → to_lower_rune lib.lower_beyond (to_lower_rune lib.lower_beyond c)
          ≡ to_lower_rune lib.lower_beyond c
    unfolding to_lower_rune
    to_lower_rune_idem c = ground (arith, laws.lower_final c)

    to_lower_idem :
        (s : Text)
        → to_lower lib.lower_beyond (to_lower lib.lower_beyond s) ≡ to_lower lib.lower_beyond s
    unfolding to_lower
    to_lower_idem [] = refl
    to_lower_idem (c ∷ s) = cc (to_lower_rune_idem c, to_lower_idem s)

    lowered_idem :
        (u v : Url)
        → v.scheme ≡ (lowered lib u).scheme
        → v.host ≡ (lowered lib u).host
        → lowered lib v ≡ v
    lowered_idem u v p q =
        let scheme : to_lower lib.lower_beyond v.scheme ≡ v.scheme =
          rw p (to_lower_idem u.scheme) in
        let host : to_lower lib.lower_beyond v.host ≡ v.host = rw q (to_lower_idem u.host) in
        λ i. record v { scheme = scheme i; host = host i }

    restored : (raw : Text) (d : DestinationUrl) → Accepted raw d → Accepted d.value d
    restored raw d a =
        let (v, parses, scheme, host, string) = laws.reparse raw a.url a.parses in
        let trimmed : trim_space d.value ≡ d.value =
          rw a.stored (laws.string_trimmed raw a.url a.parses) in
        record {
          url = v;
          there = rw trimmed (value_there a);
          parses = rw (trimmed, a.stored) parses;
          schemed = rw scheme (to_lower-there a.url.scheme a.schemed);
          web = rw (scheme, to_lower_idem a.url.scheme) a.web;
          hosted = rw host (to_lower-there a.url.host a.hosted);
          stored =
              a.stored ∙ sym string ∙ ap lib.to_string (sym (lowered_idem a.url v scheme host));
        }

    -- A stored destination is read back as itself.
    pub new_destination_url_idem :
        (raw : Text) (d : DestinationUrl)
        → new_destination_url lib raw ≡ ok d
        → new_destination_url lib d.value ≡ ok d
    new_destination_url_idem raw d h = accepted d.value d (restored raw d (accepts raw d h))
