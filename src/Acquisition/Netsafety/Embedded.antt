-- ===== src/Acquisition/Netsafety/Embedded.antt =====
-- The IPv4 addresses inside IPv6 addresses, by their layout, beside what `classify_address` of
-- acquisition/netsafety.py finds in them.
use data_hub_backend.Base.{
  ℕ, ◌+◌, ◌-◌, ◌*◌, ◌/◌, ◌%◌, ◌^◌, ◌<◌, ◌≡◌, refl, ap, arith, nat_eq, nat_eq_iff, false, Option,
  none, some, Bool-cases, inl, inr,
}
use data_hub_backend.Acquisition.Netsafety.{
  Ip, v4, v6, Reason, carried, carried_in, ipv4_mapped, sixtofour, teredo_client,
}

-- An IPv6 number and the IPv4 number laid out in it: ::ffff:0:0/96 and the address; 2002::/16, the
-- address and 80 more bits; 2001::/32, 64 bits and the address of the client, inverted.
pub data Embeds (n inner : ℕ) : Type 0 where
  in_mapped : inner < 2 ^ 32 → n ≡ 65535 * 2 ^ 32 + inner → Embeds n inner
  in_6to4 :
      (rest : ℕ)
      → inner < 2 ^ 32
      → rest < 2 ^ 80
      → n ≡ 8194 * 2 ^ 112 + inner * 2 ^ 80 + rest
      → Embeds n inner
  in_teredo :
      (middle : ℕ)
      → inner < 2 ^ 32
      → middle < 2 ^ 64
      → n ≡ 536936448 * 2 ^ 96 + middle * 2 ^ 32 + (2 ^ 32 - 1 - inner)
      → Embeds n inner

-- The address that a packet to this one reaches: the one inside, where there is one.
pub data Reaches : Ip → Ip → Type 0 where
  plain_v4 : {n : ℕ} → Reaches (v4 n) (v4 n)
  plain_v6 : {n : ℕ} → ((inner : ℕ) → Embeds n inner → ⊥) → Reaches (v6 n) (v6 n)
  embedded : {n inner : ℕ} → Embeds n inner → Reaches (v6 n) (v4 inner)

-- No number lays out two addresses.
Embeds-unique : {n i j : ℕ} → Embeds n i → Embeds n j → i ≡ j
Embeds-unique (in_mapped a b) (in_mapped c d) = omega arith
Embeds-unique (in_mapped a b) (in_6to4 r c d e) = absurd (omega arith)
Embeds-unique (in_mapped a b) (in_teredo r c d e) = absurd (omega arith)
Embeds-unique (in_6to4 r a b c) (in_mapped d e) = absurd (omega arith)
Embeds-unique (in_6to4 r a b c) (in_6to4 s d e f) = omega arith
Embeds-unique (in_6to4 r a b c) (in_teredo s d e f) = absurd (omega arith)
Embeds-unique (in_teredo r a b c) (in_mapped d e) = absurd (omega arith)
Embeds-unique (in_teredo r a b c) (in_6to4 s d e f) = absurd (omega arith)
Embeds-unique (in_teredo r a b c) (in_teredo s d e f) = omega arith

none_embedded :
    (n : ℕ)
    → nat_eq (n / 2 ^ 32) 65535 ≡ false
    → nat_eq (n / 2 ^ 112) 8194 ≡ false
    → nat_eq (n / 2 ^ 96) 536936448 ≡ false
    → (inner : ℕ) → Embeds n inner
    → ⊥
none_embedded n a b c inner (in_mapped s e) =
    let t : n / 2 ^ 32 ≡ 65535 = omega arith in let u = (nat_eq_iff (n / 2 ^ 32) 65535).1 t in cc
none_embedded n a b c inner (in_6to4 r s k e) =
    let t : n / 2 ^ 112 ≡ 8194 = omega arith in let u = (nat_eq_iff (n / 2 ^ 112) 8194).1 t in cc
none_embedded n a b c inner (in_teredo r s k e) =
    let t : n / 2 ^ 96 ≡ 536936448 = omega arith in
    let u = (nat_eq_iff (n / 2 ^ 96) 536936448).1 t in cc

-- What is found in an IPv6 number is what is laid out there.
abbrev Inside : ℕ → Option ((Reason → Reason) × ℕ) → Type 0
Inside n none = (inner : ℕ) → Embeds n inner → ⊥
Inside n (some (f, inner)) = Embeds n inner

carried-Inside : (n : ℕ) → Inside n (carried n)
unfolding ipv4_mapped sixtofour teredo_client
carried-Inside n = elim (Bool-cases (nat_eq (n / 2 ^ 32) 65535)) [
  | inl a ↦
      let t = (nat_eq_iff (n / 2 ^ 32) 65535).0 a in
      rw (a, Inside) (in_mapped (omega arith) (omega arith))
  | inr a ↦
      rw (a, Inside)
        (elim (Bool-cases (nat_eq (n / 2 ^ 112) 8194)) [
          | inl b ↦
              let t = (nat_eq_iff (n / 2 ^ 112) 8194).0 b in
              rw (b, Inside) (in_6to4 (n % 2 ^ 80) (omega arith) (omega arith) (omega arith))
          | inr b ↦
              rw (b, Inside)
                (elim (Bool-cases (nat_eq (n / 2 ^ 96) 536936448)) [
                  | inl c ↦
                      let t = (nat_eq_iff (n / 2 ^ 96) 536936448).0 c in
                      rw (c, Inside)
                        (in_teredo (n / 2 ^ 32 % 2 ^ 64) (omega arith) (omega arith) (omega arith))
                  | inr c ↦ rw (c, Inside) (none_embedded n a b c)
                ])
        ])
]

-- The address that the code looks at: the one inside, where it finds one.
abbrev pub reached_by : Ip → Option ((Reason → Reason) × ℕ) → Ip
reached_by ip none = ip
reached_by ip (some (f, inner)) = v4 inner

abbrev pub found_in : Ip → Ip
found_in ip = reached_by ip (carried_in ip)

pub found_in-Reaches : (ip : Ip) → Reaches ip (found_in ip)
found_in-Reaches (v4 n) = plain_v4
found_in-Reaches (v6 n) = of_inside (carried n) (carried-Inside n)
  where
    of_inside :
        (c : Option ((Reason → Reason) × ℕ)) → Inside n c → Reaches (v6 n) (reached_by (v6 n) c)
    of_inside none h = plain_v6 h
    of_inside (some (f, inner)) e = embedded e

-- It is the only one that is reached.
pub Reaches-found_in : (ip r : Ip) → Reaches ip r → r ≡ found_in ip
Reaches-found_in (v4 n) r plain_v4 = refl
Reaches-found_in (v6 n) r (plain_v6 h) = nothing (carried n) (carried-Inside n)
  where
    nothing : (c : Option ((Reason → Reason) × ℕ)) → Inside n c → v6 n ≡ reached_by (v6 n) c
    nothing none k = refl
    nothing (some (f, inner)) e = absurd (h inner e)
Reaches-found_in (v6 n) r (embedded {inner = i} e) = something (carried n) (carried-Inside n)
  where
    something : (c : Option ((Reason → Reason) × ℕ)) → Inside n c → v4 i ≡ reached_by (v6 n) c
    something none k = absurd (k i e)
    something (some (f, inner)) e' = ap v4 (Embeds-unique e e')
