-- ===== src/Authorization/Certificates/Matching.antt =====
-- Which configured certificate the names that a client shows lead to.
use golibs.Prelude.{
  Bool, true, false, not, ◌&&◌, ◌||◌, Option, none, some, List, [], ◌∷◌, ◌++◌, ◌≡◌, inl, inr, refl,
  arith, Bytes, bytes_key, bytes_eqb, is_empty, All,
}
use golibs.Slices.{contains, filter, transform, flat_map, concat}
use golibs.Slices.Sets.{contains-append}
use golibs.Slices.Members.{contains-filter, contains-unique, match_any-shared}
use golibs.Authorization.{PeerCertificate, GinRequest}
use golibs.Authorization.Certificates.{
  Certificate, match_any_common_name, match_certificate, presented, extract_common_names,
  extract_dns_names, named,
}

-- Some of the certificates has the name as common name or as DNS name.
unfoldable pub shows : List PeerCertificate → Bytes → Bool
shows [] v = false
shows (p ∷ ps) v = (bytes_eqb p.common_name v || contains p.dns_names v) || shows ps v

shows_common : List PeerCertificate → Bytes → Bool
shows_common ps v = contains (transform ps (λ cert. cert.common_name)) v

shows_dns : List PeerCertificate → Bytes → Bool
shows_dns ps v = contains (flat_map ps (λ cert. cert.dns_names)) v

shows_split :
    (ps : List PeerCertificate) (v : Bytes) → (shows_common ps v || shows_dns ps v) ≡ shows ps v
unfolding shows shows_common shows_dns contains transform flat_map
shows_split [] v = refl
shows_split (p ∷ ps) v =
    ground (
      arith,
      contains-append p.dns_names (flat_map ps (λ cert. cert.dns_names)) v,
      shows_split ps v,
    )

-- The names are the common names and the DNS names of the certificates, but for empty ones.
pub contains-presented :
    (c : GinRequest) (v : Bytes)
    → contains (presented c) v ≡ (not (is_empty v) && shows c.peer_certificates v)
unfolding presented concat flat_map extract_common_names extract_dns_names shows_common shows_dns
    contains
contains-presented c v =
    let ps = c.peer_certificates in
    let common = transform ps (λ cert. cert.common_name) in
    let dns = filter (flat_map ps (λ cert. cert.dns_names)) named in
    ground (
      arith,
      contains-unique (extract_common_names ps ++ (extract_dns_names ps ++ [])) v,
      contains-append (extract_common_names ps) (extract_dns_names ps ++ []) v,
      contains-append (extract_dns_names ps) [] v,
      contains-filter common named v,
      contains-unique dns v,
      contains-filter (flat_map ps (λ cert. cert.dns_names)) named v,
      shows_split ps v,
    )

-- No certificate of the configuration has one of the names.
abbrev pub NoneShown : List Bytes → List Certificate → Type 0
NoneShown names = All (λ host. (v : Bytes) → contains names v ≡ true → contains host.cns v ≡ false)

-- The certificate is the first of the configuration that has one of the names.
pub data First (names : List Bytes) : List Certificate → Certificate → Type 0 where
  here : {host : Certificate} {hosts : List Certificate} → First names (host ∷ hosts) host
  behind :
      {host cert : Certificate} {hosts : List Certificate}
      → ((v : Bytes) → contains names v ≡ true → contains host.cns v ≡ false)
      → First names hosts cert
      → First names (host ∷ hosts) cert

pub data Finding (names : List Bytes) (hosts : List Certificate)
    : Option (Certificate × Bytes) → Type 0 where
  missing : NoneShown names hosts → Finding names hosts none
  found :
      {cert : Certificate} {cn : Bytes}
      → First names hosts cert
      → contains cert.cns cn ≡ true
      → contains names cn ≡ true
      → Finding names hosts (some (cert, cn))

pub match_certificate-Finding :
    (hosts : List Certificate) (names : List Bytes)
    → Finding names hosts (match_certificate hosts names)
unfolding match_certificate match_any_common_name
match_certificate-Finding [] names = missing tt
match_certificate-Finding (host ∷ hosts) names = elim (match_any-shared host.cns names) [
  | inl (v, e, h, k) ↦ rw (e, match_certificate, match_any_common_name) (found here h k)
  | inr (e, h) ↦
      rw (e, match_certificate, match_any_common_name)
        (later names h (match_certificate-Finding hosts names))
]
  where
    later :
        {host : Certificate} {hosts : List Certificate} {r : Option (Certificate × Bytes)}
        (names : List Bytes)
        → ((v : Bytes) → contains names v ≡ true → contains host.cns v ≡ false)
        → Finding names hosts r
        → Finding names (host ∷ hosts) r
    later names h (missing m) = missing (h, m)
    later names h (found f k l) = found (behind h f) k l
