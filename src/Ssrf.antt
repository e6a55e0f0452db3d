-- ===== src/Ssrf.antt =====
-- services/ssrf.py: requests to hosts that a feed names go to a public address, and to the very
-- address that was checked. `ipaddress`, the resolver and the inner transport are parameters.
pub mod Pinned
use Prim.Native.Nat.{◌^◌}
use ripcale_backend.Prelude.{
  ℕ, ◌+◌, ◌*◌, ◌-◌, Bool, true, false, ◌&&◌, ◌||◌, not, List, [], ◌∷◌, ◌++◌, Option, none, some,
  Text, codes, ◌==◌, nat_eq, list_eq, if◌then◌else◌, any, keep, find, insert, leb, ltb, or_else,
}

-- `IPv4Address` and `IPv6Address`, by their number.
pub data Address : Type 0 where
  v4 v6 : ℕ → Address

-- A network, by its first address and the number of bits that are free.
pub record Network : Type 0 where
  pub first : Address
  pub host_bits : ℕ

abbrev is_among : ℕ → ℕ → ℕ → Bool
is_among n low host_bits = leb low n && ltb n (low + 2 ^ host_bits)

-- `ip in net`
unfoldable pub in_network : Address → Network → Bool
in_network (v4 n) net = elim net.first [ v4 low ↦ is_among n low net.host_bits | v6 low ↦ false ]
in_network (v6 n) net = elim net.first [ v4 low ↦ false | v6 low ↦ is_among n low net.host_bits ]

abbrev pub dotted : ℕ → ℕ → ℕ → ℕ → ℕ
dotted a b c d = ((a * 256 + b) * 256 + c) * 256 + d

-- `ip_network("a.b.c.d/prefix")`
abbrev pub v4_network : ℕ → ℕ → ℕ → ℕ → ℕ → Network
v4_network a b c d prefix = record { first = v4 (dotted a b c d); host_bits = 32 - prefix }

-- `ip_network("head::/prefix")`, and `::last` behind it
abbrev v6_network : ℕ → ℕ → ℕ → Network
v6_network head last prefix = record {
  first = v6 (head * 2 ^ 112 + last);
  host_bits = 128 - prefix;
}

unfoldable pub blocked_nets : List Network
blocked_nets =
    v4_network 0 0 0 0 8
    ∷ v4_network 10 0 0 0 8
    ∷ v4_network 100 64 0 0 10
    ∷ v4_network 127 0 0 0 8
    ∷ v4_network 169 254 0 0 16
    ∷ v4_network 172 16 0 0 12
    ∷ v4_network 192 168 0 0 16
    ∷ v4_network 224 0 0 0 4
    ∷ v4_network 240 0 0 0 4
    ∷ v6_network 0 0 128
    ∷ v6_network 0 1 128
    ∷ v6_network 0xfc00 0 7
    ∷ v6_network 0xfe80 0 10
    ∷ v6_network 0xff00 0 8
    ∷ []

-- What the transport reads of an `httpx.Request`.
pub record Url : Type 0 where
  pub scheme : Text
  pub raw_host : Option Text
  pub port : Option ℕ
  pub rest : Text

pub record Request : Type 0 where
  pub method : Text
  pub url : Url
  pub headers : List (Text × Text)
  pub stream : Text
  pub extensions : List (Text × Text)

-- The reasons of `SSRFBlocked`, and the `ValueError` on a resolver's answer that is no address.
pub data Refusal : Type 0 where
  no_host : Refusal
  cannot_resolve : Text → Refusal
  no_global_address : Text → Refusal
  blocked_address : Address → Refusal
  not_an_address : Text → Refusal

pub record World : Type 0 where
  pub ssrf_guard_enabled : Bool
  -- `ipaddress.ip_address` of a text, without a value where it raises, and `str` of an address
  pub ip_address : Text → Option Address
  pub str : Address → Text
  -- `ip.is_global`
  pub is_global : Address → Bool
  -- the addresses of `socket.getaddrinfo`, without a value where it raises `gaierror`
  pub getaddrinfo : Text → ℕ → Option (List Text)

-- What a request comes to: the inner transport's answer, or a refusal before it is asked.
pub data Reply {ℓ} (R : Type ℓ) : Type ℓ where
  answered : R → Reply R
  refused : Refusal → Reply R

abbrev pub is_v4 : Address → Bool
is_v4 (v4 n) = true
is_v4 (v6 n) = false

module _ (w : World) where
  unfoldable pub is_global_ip : Address → Bool
  is_global_ip ip = w.is_global ip && not (any (in_network ip) blocked_nets)

  abbrev pub if_global : Option Address → Reply (List Address) → Text → Reply (List Address)
  if_global none found info = refused (not_an_address info)
  if_global (some ip) (refused r) info = refused r
  if_global (some ip) (answered ips) info = answered (if is_global_ip ip then ip ∷ ips else ips)

  -- The loop over the resolver's answers. An answer that is no address ends it.
  unfoldable pub global_ips : List Text → Reply (List Address)
  global_ips [] = answered []
  global_ips (info ∷ infos) = if_global (w.ip_address info) (global_ips infos) info

  -- The first IPv4 address, or else the first.
  unfoldable pub preferred : Text → List Address → Reply Address
  preferred host [] = refused (no_global_address host)
  preferred host (ip ∷ ips) = answered (or_else (find is_v4 (ip ∷ ips)) ip)

  abbrev pub chosen : Text → Reply (List Address) → Reply Address
  chosen host (refused r) = refused r
  chosen host (answered ips) = preferred host ips

  abbrev resolved : Text → Option (List Text) → Reply Address
  resolved host none = refused (cannot_resolve host)
  resolved host (some infos) = chosen host (global_ips infos)

  unfoldable pub resolve_global : Text → ℕ → Reply Address
  resolve_global host port = resolved host (w.getaddrinfo host port)

  -- `request.url.port or (443 if … else 80)`
  abbrev default_port : Url → ℕ
  default_port url = if url.scheme == codes "https" then 443 else 80

  abbrev pub port_of : Url → ℕ
  port_of url = let port = or_else url.port 0 in if port == 0 then default_port url else port

  abbrev checked : Address → Reply Address
  checked ip = if is_global_ip ip then answered ip else refused (blocked_address ip)

  abbrev looked_up : Url → Text → Option Address → Reply Address
  looked_up url hostname none = resolve_global hostname (port_of url)
  looked_up url hostname (some ip) = checked ip

  -- The address that a request goes to.
  unfoldable pub target_ip : Url → Text → Reply Address
  target_ip url hostname = looked_up url hostname (w.ip_address hostname)

  unfoldable pub pinned : Request → Text → Address → Request
  pinned request hostname ip = record request {
    url = record request.url { raw_host = some (w.str ip) };
    extensions = insert (codes "sni_hostname") hostname request.extensions;
  }

  module _ {R : Type 0} (inner : Request → R) where
    abbrev pub send_to : Request → Text → Reply Address → Reply R
    send_to request hostname (refused r) = refused r
    send_to request hostname (answered ip) = answered (inner (pinned request hostname ip))

    abbrev pub guarded : Request → Option Text → Reply R
    guarded request none = refused no_host
    guarded request (some hostname) = send_to request hostname (target_ip request.url hostname)

    unfoldable pub handle_request : Request → Reply R
    handle_request request =
        if not w.ssrf_guard_enabled
        then answered (inner request)
        else guarded request request.url.raw_host
