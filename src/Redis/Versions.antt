-- ===== src/Redis/Versions.antt =====
-- The versioned write: an older mapping never replaces a newer one, in whatever order they come.
use url_shortner.Prelude.{
  ltb, lt→ltb, ℕ, ◌≤◌, ◌<◌, ◌≡◌, ◌∙◌, ap, refl, true, false, Option, none, some, inl, inr, arith,
  Bool-cases,
}
use url_shortner.Prelude.Maps.{lookup}
use url_shortner.Text.{Text, codes, text_eq, text_key}
use url_shortner.Text.Decimal.{format_uint}
use url_shortner.Text.Decimal.Canonical.{decimal_gt, decimal_gt-format_uint}
use url_shortner.Redis.{Fields, Commands, Arguments, hash_fields, is_older, put_if_newer_script}

abbrev pub or_else : Option Text → Option Text → Option Text
or_else none old = old
or_else (some new) old = some new

-- Documented behaviour of HSET and of PEXPIRE with a lifetime above 0: the named fields of the one
-- key are set, and an expiration set for later takes no field away.
pub record CommandLaws {S : Type 0} (redis : Commands S) : Type 0 where
  pub hget_hset :
      (key field : Text) (fields : Fields) (s : S)
      → redis.hget key field (redis.hset key fields s)
        ≡ or_else (lookup field fields) (redis.hget key field s)
  pub hget_pexpire :
      (key field : Text) (ttl : ℕ) (s : S)
      → 0 < ttl
      → redis.hget key field (redis.pexpire key ttl s) ≡ redis.hget key field s

-- The version on a key, if any, is at most `w`.
pub data AtMost (w : ℕ) : Option Text → Type 0 where
  nothing : AtMost w none
  version : (v : ℕ) → 0 < v → v ≤ w → AtMost w (some (format_uint v))

-- On printed versions above 0 the script's test, by length and then by text, is the order of the
-- numbers.
pub is_older-format_uint :
    (v w : ℕ) → 0 < v → 0 < w → is_older (some (format_uint v)) (format_uint w) ≡ ltb w v
unfolding is_older
is_older-format_uint v w p q = decimal_gt-format_uint v w p q

is_older-newer :
    (w : ℕ) (current : Option Text)
    → 0 < w
    → AtMost w current
    → is_older current (format_uint w) ≡ false
unfolding is_older
is_older-newer w _ p nothing = refl
is_older-newer w _ p (version v q le) = decimal_gt-format_uint v w q p ∙ ground arith

module _ {S : Type 0} (redis : Commands S) (laws : CommandLaws redis) (key : Text) where
  -- The four fields of a mapping stand on the key.
  abbrev pub Holds : Arguments → S → Type 0
  Holds a s =
      (redis.hget key (codes "destination") s ≡ some a.destination)
      × (redis.hget key (codes "status") s ≡ some a.status)
      × (redis.hget key (codes "version") s ≡ some a.version)
      × (redis.hget key (codes "expires_at") s ≡ some a.expires_at)

  field_written :
      (field : Text) (a : Arguments) (s : S)
      → 0 < a.ttl_milliseconds
      → redis.hget key field
          (redis.pexpire key a.ttl_milliseconds (redis.hset key (hash_fields a) s))
        ≡ or_else (lookup field (hash_fields a)) (redis.hget key field s)
  field_written field a s ttl =
      laws.hget_pexpire key field a.ttl_milliseconds (redis.hset key (hash_fields a) s) ttl
      ∙ laws.hget_hset key field (hash_fields a) s

  put_fresh :
      (a : Arguments) (s : S)
      → is_older (redis.hget key (codes "version") s) a.version ≡ false
      → 0 < a.ttl_milliseconds
      → ((put_if_newer_script redis key a s).0 ≡ 1) × Holds a (put_if_newer_script redis key a s).1
  unfolding put_if_newer_script lookup text_eq
  put_fresh a s fresh ttl = rw fresh (
    refl,
    (
      field_written (codes "destination") a s ttl,
      field_written (codes "status") a s ttl,
      field_written (codes "version") a s ttl,
      field_written (codes "expires_at") a s ttl,
    ),
  )

  -- A version that is at least the one on the key is written, with all the fields of its mapping.
  pub put_newer :
      (a : Arguments) (w : ℕ) (s : S)
      → a.version ≡ format_uint w
      → 0 < w
      → 0 < a.ttl_milliseconds
      → AtMost w (redis.hget key (codes "version") s)
      → ((put_if_newer_script redis key a s).0 ≡ 1) × Holds a (put_if_newer_script redis key a s).1
  put_newer a w s e p ttl most = put_fresh a s (rw e (is_older-newer w _ p most)) ttl

  -- A version below the one on the key is refused, and the server stays as it was.
  pub put_older :
      (a : Arguments) (v w : ℕ) (s : S)
      → a.version ≡ format_uint v
      → 0 < v
      → v < w
      → redis.hget key (codes "version") s ≡ some (format_uint w)
      → put_if_newer_script redis key a s ≡ (0, s)
  unfolding put_if_newer_script is_older
  put_older a v w s e p less held =
      let older : decimal_gt (format_uint w) (format_uint v) ≡ true =
        decimal_gt-format_uint w v (omega arith) p ∙ lt→ltb v w less in
      rw (held, e, older)

  AtMost-written :
      (a : Arguments) (v w : ℕ) (s : S)
      → a.version ≡ format_uint v
      → 0 < v
      → v ≤ w
      → 0 < a.ttl_milliseconds
      → AtMost w (redis.hget key (codes "version") s)
      → AtMost w (redis.hget key (codes "version") (put_if_newer_script redis key a s).1)
  AtMost-written a v w s e p le ttl most =
      elim (Bool-cases (is_older (redis.hget key (codes "version") s) a.version)) [
        | inl older ↦ unfold put_if_newer_script in rw older most
        | inr fresh ↦ rw ((put_fresh a s fresh ttl).1.2, e) (version v p le)
      ]

  -- The race that the cache design is about: an older and a newer mapping of one code, written in
  -- either order over a version that is at most the newer one, leave the newer mapping.
  pub put_race :
      (a b : Arguments) (v w : ℕ) (s : S)
      → a.version ≡ format_uint v
      → b.version ≡ format_uint w
      → 0 < v
      → v < w
      → 0 < a.ttl_milliseconds
      → 0 < b.ttl_milliseconds
      → AtMost w (redis.hget key (codes "version") s)
      → (let put = λ (x : Arguments) (t : S). (put_if_newer_script redis key x t).1 in
          Holds b (put b (put a s)) × Holds b (put a (put b s)))
  put_race a b v w s e f p less ttl ttl' most =
      let later = (put_if_newer_script redis key a s).1 in
      let settled = put_newer b w s f (omega arith) ttl' most in
      let held = settled.1.2 ∙ ap some f in
      let refused = put_older a v w (put_if_newer_script redis key b s).1 e p less held in
      (
        (put_newer b w later f (omega arith) ttl'
            (AtMost-written a v w s e p (omega arith) ttl most)).1,
        rw refused settled.1,
      )
