-- ===== src/Charm/Adapter/Hosts.antt =====
-- The hosts of an endpoint.
use mathlib.Core.List.{Memᴰ}
use mathlib.Core.Path.{subst}
use demos_rework.Base.{
  ◌≡◌, refl, sym, ◌↔◌, true, false, List, [], ◌∷◌, Bool-cases, inl, inr, ◌⊎◌, arith,
}
use demos_rework.Base.Text.{Text, text_eq, text_eq_iff}
use demos_rework.Charm.Adapter.{
  Address, Node, text_ltb, insert_host, is_internal, add_addresses, addresses_of, internal_hosts,
}

text_ltb-total : (s t : Text) → text_ltb s t ≡ false → text_eq s t ≡ false → text_ltb t s ≡ true
unfolding text_ltb text_eq
text_ltb-total [] [] a b = cc b
text_ltb-total [] (d ∷ t) a b = cc a
text_ltb-total (c ∷ s) [] a b = refl
text_ltb-total (c ∷ s) (d ∷ t) a b = ground (arith, text_ltb-total s t)

-- A text comes before the first of a list.
unfoldable Before : Text → List Text → Type 0
Before s [] = Unit {0}
Before s (t ∷ l) = text_ltb s t ≡ true

-- Sorted, without repetition.
unfoldable pub IsIncreasing : List Text → Type 0
unfolding Before
IsIncreasing [] = Unit {0}
IsIncreasing (s ∷ l) = Before s l × IsIncreasing l

-- A text is put first, is there already, or is put behind the first.
insert_cases :
    (host t : Text) (l : List Text)
    → ((text_ltb host t ≡ true) × (insert_host host (t ∷ l) ≡ host ∷ t ∷ l))
      ⊎ (((host ≡ t) × (insert_host host (t ∷ l) ≡ t ∷ l))
          ⊎ ((text_ltb t host ≡ true) × (insert_host host (t ∷ l) ≡ t ∷ insert_host host l)))
unfolding insert_host
insert_cases host t l = elim (Bool-cases (text_ltb host t)) [
  | inl lt ↦ inl (lt, rw lt refl)
  | inr ge ↦ elim (Bool-cases (text_eq host t)) [
    | inl same ↦ inr (inl ((text_eq_iff host t).0 same, rw (ge, same) refl))
    | inr other ↦ inr (inr (text_ltb-total host t ge other, rw (ge, other) refl))
  ]
]

insert_nil : (host : Text) → insert_host host [] ≡ host ∷ []
unfolding insert_host
insert_nil host = refl

Before-insert :
    (s host : Text) (l : List Text)
    → text_ltb s host ≡ true
    → Before s l
    → Before s (insert_host host l)
unfolding Before
Before-insert s host [] h b = rw (insert_nil host) h
Before-insert s host (t ∷ l) h b = elim (insert_cases host t l) [
  | inl (_, e) ↦ rw e h
  | inr (inl (_, e)) ↦ rw e b
  | inr (inr (_, e)) ↦ rw e b
]

insert-IsIncreasing :
    (host : Text) (l : List Text) → IsIncreasing l → IsIncreasing (insert_host host l)
unfolding IsIncreasing
insert-IsIncreasing host [] h = rw (insert_nil host) (tt, tt)
insert-IsIncreasing host (t ∷ l) (b, h) = elim (insert_cases host t l) [
  | inl (lt, e) ↦ rw e (lt, (b, h))
  | inr (inl (_, e)) ↦ rw e (b, h)
  | inr (inr (lt, e)) ↦ rw e (Before-insert t host l lt b, insert-IsIncreasing host l h)
]

mem-cons : (s t : Text) (l : List Text) → Memᴰ s (t ∷ l) ↔ ((s ≡ t) ⊎ Memᴰ s l)
mem-cons s t l = (to, from)
  where
    to : Memᴰ s (t ∷ l) → (s ≡ t) ⊎ Memᴰ s l
    to (Memᴰ.head e) = inl e
    to (Memᴰ.tail m) = inr m

    from : (s ≡ t) ⊎ Memᴰ s l → Memᴰ s (t ∷ l)
    from (inl e) = Memᴰ.head e
    from (inr m) = Memᴰ.tail m

insert-mem :
    (host : Text) (l : List Text) (s : Text) → Memᴰ s (insert_host host l) ↔ ((s ≡ host) ⊎ Memᴰ s l)
insert-mem host [] s = rw (insert_nil host) (mem-cons s host [])
insert-mem host (t ∷ l) s = elim (insert_cases host t l) [
  | inl (lt, e) ↦ rw e (mem-cons s host (t ∷ l))
  | inr (inl (same, e)) ↦ rw (e, same) (λ m. inr m, λ m. ground (arith, mem-cons s t l))
  | inr (inr (lt, e)) ↦ rw e (
    λ m. ground (arith, mem-cons s t l, mem-cons s t (insert_host host l), insert-mem host l s),
    λ m. ground (arith, mem-cons s t l, mem-cons s t (insert_host host l), insert-mem host l s),
  )
]

-- An address that is taken: of a node of the list, internal, with a text.
unfoldable pub IsHost : List Node → Text → Type 0
IsHost nodes host =
    (node : Node) × (address : Address) × Memᴰ node nodes
    × Memᴰ address (addresses_of node)
    × (is_internal address ≡ true)
    × (address.address ≡ host)

add_addresses-mem :
    (addresses : List Address) (l : List Text) (s : Text)
    → Memᴰ s (add_addresses addresses l)
    → ((address : Address) × Memᴰ address addresses
        × (is_internal address ≡ true)
        × (address.address ≡ s))
      ⊎ Memᴰ s l
unfolding add_addresses
add_addresses-mem [] l s m = inr m
add_addresses-mem (a ∷ addresses) l s m = elim (Bool-cases (is_internal a)) [
  | inl taken ↦
      elim ((insert-mem a.address (add_addresses addresses l) s).0
        (rw (taken, add_addresses) at m)) [
          | inl same ↦ inl (a, Memᴰ.head refl, taken, sym same)
          | inr later ↦ behind (add_addresses-mem addresses l s later)
        ]
  | inr not_taken ↦ behind (add_addresses-mem addresses l s (rw (not_taken, add_addresses) at m))
]
  where
    behind :
        ((address : Address) × Memᴰ address addresses
            × (is_internal address ≡ true)
            × (address.address ≡ s))
          ⊎ Memᴰ s l
        → ((address : Address) × Memᴰ address (a ∷ addresses)
            × (is_internal address ≡ true)
            × (address.address ≡ s))
          ⊎ Memᴰ s l
    behind (inl (address, listed, taken, same)) = inl (address, Memᴰ.tail listed, taken, same)
    behind (inr m) = inr m

-- Nothing that is there or that is added is lost.
add_addresses-keeps :
    (addresses : List Address) (l : List Text) (s : Text)
    → Memᴰ s l
    → Memᴰ s (add_addresses addresses l)
unfolding add_addresses
add_addresses-keeps [] l s m = m
add_addresses-keeps (a ∷ addresses) l s m =
    let rest = add_addresses-keeps addresses l s m in
    elim (Bool-cases (is_internal a)) [
      | inl taken ↦ rw taken ((insert-mem a.address (add_addresses addresses l) s).1 (inr rest))
      | inr not_taken ↦ rw not_taken rest
    ]

add_addresses-adds :
    (addresses : List Address) (l : List Text) (address : Address)
    → Memᴰ address addresses
    → is_internal address ≡ true
    → Memᴰ address.address (add_addresses addresses l)
unfolding add_addresses
add_addresses-adds [] l address m taken = elim m [ ]
add_addresses-adds (a ∷ addresses) l address (Memᴰ.head e) taken =
    subst (λ (x : Address). Memᴰ address.address (add_addresses (x ∷ addresses) l)) e
      (rw taken
        ((insert-mem address.address (add_addresses addresses l) address.address).1 (inl refl)))
add_addresses-adds (a ∷ addresses) l address (Memᴰ.tail m) taken =
    let rest = add_addresses-adds addresses l address m taken in
    elim (Bool-cases (is_internal a)) [
      | inl here ↦
          rw here ((insert-mem a.address (add_addresses addresses l) address.address).1 (inr rest))
      | inr not_here ↦ rw not_here rest
    ]

pub internal_hosts-IsHost :
    (nodes : List Node) (s : Text) → Memᴰ s (internal_hosts nodes) → IsHost nodes s
unfolding IsHost internal_hosts
internal_hosts-IsHost [] s m = elim m [ ]
internal_hosts-IsHost (n ∷ nodes) s m =
    elim (add_addresses-mem (addresses_of n) (internal_hosts nodes) s m) [
      | inl (address, listed, taken, same) ↦ (n, address, Memᴰ.head refl, listed, taken, same)
      | inr later ↦
          let (node, address, known, listed, taken, same) = internal_hosts-IsHost nodes s later in
          (node, address, Memᴰ.tail known, listed, taken, same)
    ]

pub IsHost-listed : (nodes : List Node) (s : Text) → IsHost nodes s → Memᴰ s (internal_hosts nodes)
unfolding IsHost internal_hosts
IsHost-listed [] s (node, address, m, listed, taken, same) = elim m [ ]
IsHost-listed (n ∷ nodes) s (node, address, Memᴰ.head e, listed, taken, same) =
    subst (λ (x : Text). Memᴰ x (internal_hosts (n ∷ nodes))) same
      (add_addresses-adds (addresses_of n) (internal_hosts nodes) address
        (subst (λ (x : Node). Memᴰ address (addresses_of x)) e listed) taken)
IsHost-listed (n ∷ nodes) s (node, address, Memᴰ.tail m, listed, taken, same) =
    add_addresses-keeps (addresses_of n) (internal_hosts nodes) s
      (IsHost-listed nodes s (node, address, m, listed, taken, same))

add_addresses-IsIncreasing :
    (addresses : List Address) (l : List Text)
    → IsIncreasing l
    → IsIncreasing (add_addresses addresses l)
unfolding add_addresses
add_addresses-IsIncreasing [] l h = h
add_addresses-IsIncreasing (a ∷ addresses) l h =
    let rest = add_addresses-IsIncreasing addresses l h in
    elim (Bool-cases (is_internal a)) [
      | inl taken ↦ rw taken (insert-IsIncreasing a.address (add_addresses addresses l) rest)
      | inr not_taken ↦ rw not_taken rest
    ]

pub internal_hosts-IsIncreasing : (nodes : List Node) → IsIncreasing (internal_hosts nodes)
unfolding internal_hosts IsIncreasing
internal_hosts-IsIncreasing [] = tt
internal_hosts-IsIncreasing (node ∷ nodes) =
    add_addresses-IsIncreasing (addresses_of node) (internal_hosts nodes)
      (internal_hosts-IsIncreasing nodes)
