-- ===== src/Ssrf/Pinned.antt =====
-- The addresses that the guarded transport connects to.
use ripcale_backend.Prelude.{
  ℕ, ◌≡◌, true, false, List, some, Text, ◌⊎◌, All, contains, nat_eq, list_eq,
}
use ripcale_backend.Ssrf.{
  Address, Request, Refusal, World, Reply, answered, refused, in_network, blocked_nets,
  is_global_ip, pinned,
}

-- What a reply gives, where it gives anything.
abbrev AllReplied {ℓ κ} : {R : Type ℓ} → (R → Type κ) → Reply R → Type κ
AllReplied P (answered r) = P r
AllReplied P (refused r) = Unit

abbrev IsGlobal : World → Address → Type 0
IsGlobal w ip = is_global_ip w ip ≡ true

-- Where the address of a host comes from: it is written out, or the resolver gives it.
abbrev pub Names : World → Text → Address → Type 0
Names w hostname ip =
    (w.ip_address hostname ≡ some ip)
    ⊎ ((infos : List Text) × (info : Text) × (port : ℕ) × (w.getaddrinfo hostname port ≡ some infos)
        × (contains info infos ≡ true)
        × (w.ip_address info ≡ some ip))

abbrev pub IsPublic : World → Address → Type 0
IsPublic w ip = (w.is_global ip ≡ true) × All (λ net. in_network ip net ≡ false) blocked_nets

abbrev IsTarget : World → Text → Address → Type 0
IsTarget w hostname ip = IsPublic w ip × Names w hostname ip

abbrev pub Sent : {R : Type 0} → World → (Request → R) → Request → Text → Reply R → Type 0
Sent w inner request hostname reply =
    (ip : Address) × IsPublic w ip
    × Names w hostname ip
    × (reply ≡ answered (inner (pinned w request hostname ip)))

abbrev pub Refused : {R : Type 0} → Reply R → Type 0
Refused reply = (why : Refusal) × (reply ≡ refused why)
