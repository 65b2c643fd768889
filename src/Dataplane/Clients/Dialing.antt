-- ===== src/Dataplane/Clients/Dialing.antt =====
-- internal/dataplane/transport.go: which addresses are dialed.
use diffractllm.Base.{
  ◌⊎◌, ◌≡◌, refl, Bool, true, false, Bool-cases, inl, inr, Option, none, some, List, [], ◌∷◌, All,
  ok, arith,
}
use diffractllm.Dataplane.Clients.{
  Addresses, DialError, Target, by_name, to_address, is_blocked_ip, dial_addresses,
  guarded_proxy_dial, blocked, dial_failed,
}

module _ {A : Type 0} (net : Addresses A) where
  abbrev pub IsOpen : Target A → Type 0
  IsOpen by_name = ⊥
  IsOpen (to_address ip) = is_blocked_ip net ip ≡ false

  dial_addresses-IsOpen :
      (dials : A → Bool) (ips : List A) (last : Option DialError)
      → All IsOpen (dial_addresses net dials ips last).0
  unfolding dial_addresses
  dial_addresses-IsOpen dials [] last = tt
  dial_addresses-IsOpen dials (ip ∷ ips) last = elim (Bool-cases (is_blocked_ip net ip)) [
    | inl shut ↦ rw shut (dial_addresses-IsOpen dials ips (some blocked))
    | inr free ↦ elim (Bool-cases (dials ip)) [
      | inl there ↦ rw (free, there) (free, tt)
      | inr gone ↦ rw (free, gone) (free, dial_addresses-IsOpen dials ips (some dial_failed))
    ]
  ]

  and_out : {X : Type 0} {P : Type 0} {Q : Type 0} → P → X ⊎ Q → X ⊎ (P × Q)
  and_out p (inl x) = inl x
  and_out p (inr q) = inr (p, q)

  -- An address that a failed attempt cannot have reached.
  abbrev pub IsOut : (A → Bool) → A → Type 0
  IsOut dials ip = (is_blocked_ip net ip ≡ true) ⊎ (dials ip ≡ false)

  dial_addresses-IsOut :
      (dials : A → Bool) (ips : List A) (last : Option DialError)
      → ((ip : Target A) × ((dial_addresses net dials ips last).1 ≡ ok ip)) ⊎ All (IsOut dials) ips
  unfolding dial_addresses
  dial_addresses-IsOut dials [] last = inr tt
  dial_addresses-IsOut dials (ip ∷ ips) last = elim (Bool-cases (is_blocked_ip net ip)) [
    | inl shut ↦ rw shut (and_out (inl refl) (dial_addresses-IsOut dials ips (some blocked)))
    | inr free ↦ elim (Bool-cases (dials ip)) [
      | inl there ↦ inl (to_address ip, ground (arith, free, there))
      | inr gone ↦
          rw (free, gone) (and_out (inr refl) (dial_addresses-IsOut dials ips (some dial_failed)))
    ]
  ]

  -- Behind a SOCKS proxy, and unless private networks are allowed, only addresses that are not blocked are dialed;
  -- and a connection comes about unless each address that the name resolves to is blocked or does not
  -- answer.
  pub guarded_proxy_dial-IsOpen :
      (ips : List A) (name_dials : Bool) (dials : A → Bool)
      → All IsOpen (guarded_proxy_dial net false true (some ips) name_dials dials).0
        × (((ip : Target A) × ((guarded_proxy_dial net false true (some ips) name_dials dials).1
                ≡ ok ip))
            ⊎ All (IsOut dials) ips)
  unfolding guarded_proxy_dial
  guarded_proxy_dial-IsOpen ips name_dials dials =
      (dial_addresses-IsOpen dials ips none, dial_addresses-IsOut dials ips none)
