-- ===== src/Url/Copy.antt =====
-- a.yanin/waxy/src/url.c: `url_copy`, with the slices of a URL as addresses in the memory.
use posix_threads.Common.{
  ℕ, ◌+◌, ◌-◌, ◌^◌, ◌<◌, ◌≡◌, refl, inl, inr, false, not, Option, none, some, arith, ◌==◌,
  if◌then◌else◌, Bool-cases, ne→==_false, length,
}
use posix_threads.Vec.{u64}
use posix_threads.Buffer.{Room, Buffer, Report, null, message, Problem}
use posix_threads.Url.State.{Region, UrlRegion}
use posix_threads.Url.Parse.{Url}

-- `url_t`: the buffer with the address of its first byte, and slices whose `start` is the address `base` of
-- a `slice_t`
pub record PlacedUrl : Type 0 where
  pub base : ℕ
  pub buf : Buffer
  pub slices : UrlRegion

-- `region_to_slice`
abbrev pub region_to_slice : ℕ → Region → Region
region_to_slice base r = record { start = u64 (base + r.start); len = r.len }

unfoldable pub rebase_slice : ℕ → ℕ → Region → Region
rebase_slice base new_base slice = record {
  start = if base == 0 then 0 else u64 (new_base + u64 (slice.start + 2 ^ 64 - base));
  len = slice.len;
}

-- the slices of a URL whose buffer begins at `base`
abbrev pub slices_at : ℕ → UrlRegion → UrlRegion
slices_at base r = record {
  scheme = region_to_slice base r.scheme;
  username = region_to_slice base r.username;
  password = region_to_slice base r.password;
  host = region_to_slice base r.host;
  path = region_to_slice base r.path;
  query = region_to_slice base r.query;
  fragment = region_to_slice base r.fragment;
  port = r.port;
  host_null = r.host_null;
  port_null = r.port_null;
  query_null = r.query_null;
  fragment_null = r.fragment_null;
}

abbrev pub placed : ℕ → Url → PlacedUrl
placed base u = record { base = base; buf = u.buf; slices = slices_at base u.regions }

-- `new_base` is the address that `string_clone` gets for the copy of the buffer.
unfoldable pub url_copy : Room → ℕ → PlacedUrl → Option PlacedUrl × Report
unfolding rebase_slice
url_copy room new_base url =
    let s = url.slices in
    let base = url.base in
    if not (room 0 (length url.buf)) then (none, message Problem.out_of_memory) else (
      some (record {
        base = new_base;
        buf = url.buf;
        slices = record {
          scheme = rebase_slice base new_base s.scheme;
          username = rebase_slice base new_base s.username;
          password = rebase_slice base new_base s.password;
          host = rebase_slice base new_base s.host;
          port = s.port;
          path = rebase_slice base new_base s.path;
          query = rebase_slice base new_base s.query;
          fragment = rebase_slice base new_base s.fragment;
          host_null = s.host_null;
          port_null = s.port_null;
          query_null = s.query_null;
          fragment_null = s.fragment_null;
        };
      }),
      null,
    )

rebase_slice-region_to_slice :
    (base new_base : ℕ) (r : Region)
    → 0 < base
    → base < 2 ^ 64
    → r.start < 2 ^ 64
    → rebase_slice base new_base (region_to_slice base r) ≡ region_to_slice new_base r
unfolding rebase_slice
rebase_slice-region_to_slice base new_base r there small inside =
    let nonzero : (base == 0) ≡ false = ne→==_false base 0 (λ e. absurd (omega arith)) in
    let distance : u64 (u64 (base + r.start) + 2 ^ 64 - base) ≡ r.start = omega arith in
    rw (nonzero, distance) refl

-- The regions begin at numbers that a `size_t` holds.
pub record AreSmall (r : UrlRegion) : Type 0 where
  pub scheme : r.scheme.start < 2 ^ 64
  pub username : r.username.start < 2 ^ 64
  pub password : r.password.start < 2 ^ 64
  pub host : r.host.start < 2 ^ 64
  pub path : r.path.start < 2 ^ 64
  pub query : r.query.start < 2 ^ 64
  pub fragment : r.fragment.start < 2 ^ 64

-- For a URL whose buffer is at an address other than `NULL` and whose regions begin at numbers that a
-- `size_t` holds, the copy is the same URL at the address of the new buffer: each slice names the same
-- bytes of the new buffer that it named of the old one. It comes with no error, and exactly if the memory
-- is there; otherwise there is an error and no copy.
pub url_copy-placed :
    (room : Room) (base new_base : ℕ) (u : Url)
    → 0 < base
    → base < 2 ^ 64
    → AreSmall u.regions
    → url_copy room new_base (placed base u) ≡ (
        if room 0 (length u.buf)
        then (some (placed new_base u), null)
        else (none, message Problem.out_of_memory))
unfolding url_copy
url_copy-placed room base new_base u there small regions =
    let r = u.regions in
    elim (Bool-cases (room 0 (length u.buf))) [
      | inr refused ↦ rw refused refl
      | inl given ↦
          rw
            (
              given,
              rebase_slice-region_to_slice base new_base r.scheme there small regions.scheme,
              rebase_slice-region_to_slice base new_base r.username there small regions.username,
              rebase_slice-region_to_slice base new_base r.password there small regions.password,
              rebase_slice-region_to_slice base new_base r.host there small regions.host,
              rebase_slice-region_to_slice base new_base r.path there small regions.path,
              rebase_slice-region_to_slice base new_base r.query there small regions.query,
              rebase_slice-region_to_slice base new_base r.fragment there small regions.fragment,
            )
            refl
    ]
