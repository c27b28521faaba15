-- ===== src/Url/Compare.antt =====
-- a.yanin/waxy/src/url.c: `url_eq`; a slice of a URL is a region of its buffer.
use posix_threads.Common.{
  ℕ, ◌≡◌, refl, ap, Bool, true, false, not, ◌&&◌, ◌||◌, Option, none, some, List, [], ◌∷◌, arith,
  ◌==◌, ==_iff,
}
use posix_threads.Url.State.{Region, region_bytes, UrlRegion, same_bytes}
use posix_threads.Url.Parse.{Url}

-- The fields of a URL as texts.
abbrev pub field : (UrlRegion → Region) → Url → List ℕ
field part u = region_bytes u.buf (part u.regions)

abbrev same_flag : Bool → Bool → Bool
same_flag true b = b
same_flag false b = not b

abbrev same_field : (UrlRegion → Region) → Url → Url → Bool
same_field part u v = same_bytes (field part u) (field part v)

-- Both are `NULL`, or neither is and the values pass the test.
abbrev pub both_null_or : Bool → Bool → Bool → Bool
both_null_or a b test = same_flag a b && (a || test)

unfoldable pub url_eq : Url → Url → Bool
url_eq u v =
    let a = u.regions in
    let b = v.regions in
    same_field (λ r. r.scheme) u v
    && (same_field (λ r. r.username) u v
        && (same_field (λ r. r.password) u v
            && (both_null_or a.host_null b.host_null (same_field (λ r. r.host) u v)
                && (both_null_or a.port_null b.port_null (a.port == b.port)
                    && (same_field (λ r. r.path) u v
                        && (both_null_or a.query_null b.query_null (same_field (λ r. r.query) u v)
                            && both_null_or a.fragment_null b.fragment_null
                                (same_field (λ r. r.fragment) u v)))))))

-- A URL as its clients see it: texts, and parts that may be absent.
pub record View : Type 0 where
  pub scheme : List ℕ
  pub username : List ℕ
  pub password : List ℕ
  pub host : Option (List ℕ)
  pub port : Option ℕ
  pub path : List ℕ
  pub query : Option (List ℕ)
  pub fragment : Option (List ℕ)

abbrev pub unless {ℓ} : {A : Type ℓ} → Bool → A → Option A
unless true a = none
unless false a = some a

abbrev pub view : Url → View
view u = record {
  scheme = field (λ r. r.scheme) u;
  username = field (λ r. r.username) u;
  password = field (λ r. r.password) u;
  host = unless u.regions.host_null (field (λ r. r.host) u);
  port = unless u.regions.port_null u.regions.port;
  path = field (λ r. r.path) u;
  query = unless u.regions.query_null (field (λ r. r.query) u);
  fragment = unless u.regions.fragment_null (field (λ r. r.fragment) u);
}

same_bytes_sound : (xs ys : List ℕ) → same_bytes xs ys ≡ true → xs ≡ ys
same_bytes_sound [] [] h = refl
same_bytes_sound [] (b ∷ ys) h = absurd (ground arith)
same_bytes_sound (a ∷ xs) [] h = absurd (ground arith)
same_bytes_sound (a ∷ xs) (b ∷ ys) h = ground (arith, same_bytes_sound xs ys)

pub same_bytes_refl : (xs : List ℕ) → same_bytes xs xs ≡ true
same_bytes_refl [] = refl
same_bytes_refl (a ∷ xs) = ground (arith, same_bytes_refl xs)

both_null_or_sound {ℓ} :
    {A : Type ℓ} (a b test : Bool) (x y : A)
    → (test ≡ true → x ≡ y)
    → both_null_or a b test ≡ true
    → unless a x ≡ unless b y
both_null_or_sound true true test x y sound h = refl
both_null_or_sound true false test x y sound h = absurd (ground arith)
both_null_or_sound false true test x y sound h = absurd (ground arith)
both_null_or_sound false false test x y sound h = ap (λ t. some t) (sound h)

both_null_or_refl : (a test : Bool) → test ≡ true → both_null_or a a test ≡ true
both_null_or_refl true test h = refl
both_null_or_refl false test h = h

and_true : (a b : Bool) → (a && b) ≡ true → (a ≡ true) × (b ≡ true)
and_true true b h = (refl, h)
and_true false b h = absurd (ground arith)

same_view :
    {v w : View}
    → v.scheme ≡ w.scheme
    → v.username ≡ w.username
    → v.password ≡ w.password
    → v.host ≡ w.host
    → v.port ≡ w.port
    → v.path ≡ w.path
    → v.query ≡ w.query
    → v.fragment ≡ w.fragment
    → v ≡ w
same_view a b c d e f g h = λ i. record {
  scheme = a i;
  username = b i;
  password = c i;
  host = d i;
  port = e i;
  path = f i;
  query = g i;
  fragment = h i;
}

-- URLs that `url_eq` takes for the same look the same to a client: their texts agree, the same parts
-- are absent, and those that are present agree.
pub url_eq-view : (u v : Url) → url_eq u v ≡ true → view u ≡ view v
unfolding url_eq
url_eq-view u v h =
    let a = u.regions in
    let b = v.regions in
    let sixth = both_null_or a.query_null b.query_null (same_field (λ r. r.query) u v) in
    let seventh = both_null_or a.fragment_null b.fragment_null (same_field (λ r. r.fragment) u v) in
    let fifth = same_field (λ r. r.path) u v in
    let fourth = both_null_or a.port_null b.port_null (a.port == b.port) in
    let third = both_null_or a.host_null b.host_null (same_field (λ r. r.host) u v) in
    let second = same_field (λ r. r.password) u v in
    let first = same_field (λ r. r.username) u v in
    let from₆ = sixth && seventh in
    let from₅ = fifth && from₆ in
    let from₄ = fourth && from₅ in
    let from₃ = third && from₄ in
    let from₂ = second && from₃ in
    let (scheme, h₁) = and_true (same_field (λ r. r.scheme) u v) (first && from₂) h in
    let (username, h₂) = and_true first from₂ h₁ in
    let (password, h₃) = and_true second from₃ h₂ in
    let (host, h₄) = and_true third from₄ h₃ in
    let (port, h₅) = and_true fourth from₅ h₄ in
    let (path, h₆) = and_true fifth from₆ h₅ in
    let (query, fragment) = and_true sixth seventh h₆ in
    same_view (same_bytes_sound _ _ scheme) (same_bytes_sound _ _ username)
      (same_bytes_sound _ _ password) (both_null_or_sound _ _ _ _ _ (same_bytes_sound _ _) host)
      (both_null_or_sound _ _ _ _ _ (==_iff _ _).0 port) (same_bytes_sound _ _ path)
      (both_null_or_sound _ _ _ _ _ (same_bytes_sound _ _) query)
      (both_null_or_sound _ _ _ _ _ (same_bytes_sound _ _) fragment)

pub url_eq_refl : (u : Url) → url_eq u u ≡ true
unfolding url_eq
url_eq_refl u =
    let r = u.regions in
    rw
      (
        same_bytes_refl (field (λ r. r.scheme) u),
        same_bytes_refl (field (λ r. r.username) u),
        same_bytes_refl (field (λ r. r.password) u),
        both_null_or_refl r.host_null _ (same_bytes_refl (field (λ r. r.host) u)),
        both_null_or_refl r.port_null _ ((==_iff r.port r.port).1 refl),
        same_bytes_refl (field (λ r. r.path) u),
        both_null_or_refl r.query_null _ (same_bytes_refl (field (λ r. r.query) u)),
        both_null_or_refl r.fragment_null _ (same_bytes_refl (field (λ r. r.fragment) u)),
      )
      refl
