-- ===== src/Candidates/Ordered.antt =====
-- bridge/p2p_addr.go: the order of the candidates, without the loop that builds it.
use nps.Prelude.{
  ◌+◌, ◌*◌, ◌/◌, ◌^◌, ◌==◌, arith, ◌||◌, ◌≡◌, refl, sym, ap, ap₂, ◌∙◌, Option, none, some, List, [],
  ◌∷◌, ◌++◌, append-nil, append_assoc, Bool, true, false, ◌&&◌, not, if◌then◌else◌, Bool-cases, inl,
  inr, if_both,
}
use nps.Net.{Addr, v4, v6, Prefix, holds, unmap}
use nps.Candidates.{
  is_public, p2p_public, Families, Chosen, is_in, is_usable, choose, add_candidate, add_all,
  order_candidates,
}

abbrev pub filter : (Addr → Bool) → List Addr → List Addr
filter p [] = []
filter p (a ∷ xs) = if p a then a ∷ filter p xs else filter p xs

abbrev pub within : List Prefix → Addr → Bool
within [] a = false
within (p ∷ ps) a = holds p a || within ps a

-- Unspecified addresses and multicast
abbrev pub unusable : List Prefix
unusable =
    record { addr = v4 0; bits = 32 }
    ∷ record { addr = v6 0; bits = 128 }
    ∷ record { addr = v4 (224 * 2 ^ 24); bits = 4 }
    ∷ record { addr = v6 (255 * 2 ^ 120); bits = 8 }
    ∷ []

-- Loopback and link-local addresses
abbrev pub own : List Prefix
own =
    record { addr = v4 (127 * 2 ^ 24); bits = 8 }
    ∷ record { addr = v6 1; bits = 128 }
    ∷ record { addr = v4 (169 * 2 ^ 24 + 254 * 2 ^ 16); bits = 16 }
    ∷ record { addr = v6 (254 * 2 ^ 120 + 128 * 2 ^ 112); bits = 10 }
    ∷ []

-- The networks of IPv4 that are not public
abbrev pub private : List Prefix
private =
    record { addr = v4 (127 * 2 ^ 24); bits = 8 }
    ∷ record { addr = v4 (224 * 2 ^ 24); bits = 24 }
    ∷ record { addr = v4 (169 * 2 ^ 24 + 254 * 2 ^ 16); bits = 16 }
    ∷ record { addr = v4 (10 * 2 ^ 24); bits = 8 }
    ∷ record { addr = v4 (172 * 2 ^ 24 + 16 * 2 ^ 16); bits = 12 }
    ∷ record { addr = v4 (192 * 2 ^ 24 + 168 * 2 ^ 16); bits = 16 }
    ∷ []

-- What IsPublicIP takes for public: no address of IPv6
abbrev pub is_outside : Addr → Bool
is_outside (v4 n) = not (within private (v4 n))
is_outside (v6 n) = false

abbrev pub of_family : Families → Addr → Bool
of_family f (v4 n) = f.four
of_family f (v6 n) = f.six

abbrev pub is_wanted : Families → Bool → Addr → Bool
is_wanted families automatic a =
    of_family families a && not (within unusable a) && not (automatic && within own a)

outside-public : (a : Addr) → is_public a ≡ is_outside a
unfolding is_public
outside-public (v4 n) = ground arith
outside-public (v6 n) = if_both (λ b. b ≡ false) _ (λ h. refl) (λ h. refl)

wanted-usable :
    (families : Families) (automatic : Bool) (a : Addr)
    → unmap a ≡ a
    → is_usable families automatic a ≡ is_wanted families automatic a
unfolding is_usable
wanted-usable families automatic (v4 n) e = ground arith
wanted-usable families automatic (v6 n) e = rw e (ground arith)

unmap-again : (a : Addr) → unmap (unmap a) ≡ unmap a
unmap-again (v4 n) = refl
unmap-again (v6 n) = elim (Bool-cases (n / 2 ^ 32 == 65535)) [
  | inl mapped ↦ rw mapped refl
  | inr plain ↦ rw (plain, plain) refl
]

-- The valid addresses that are wanted, unmapped
abbrev pub usable : Families → Bool → List (Option Addr) → List Addr
usable families automatic [] = []
usable families automatic (none ∷ cs) = usable families automatic cs
usable families automatic (some c ∷ cs) =
    if is_wanted families automatic (unmap c)
    then unmap c ∷ usable families automatic cs
    else usable families automatic cs

-- Each address at its first place, without those of another list
abbrev pub distinct : List Addr → List Addr → List Addr
distinct seen [] = []
distinct seen (a ∷ xs) =
    let others = distinct (a ∷ seen) xs in
    let same_others = distinct seen xs in if is_in a seen then same_others else a ∷ others

abbrev pub goes_last : Bool → Addr → Bool
goes_last client_public a = client_public && not (is_outside a)

abbrev pub is_client_outside : Option Addr → Bool
is_client_outside none = false
is_client_outside (some a) = is_outside (unmap a)

client-outside : (client : Option Addr) → p2p_public client ≡ is_client_outside client
unfolding p2p_public
client-outside none = refl
client-outside (some a) = outside-public (unmap a)

-- What the loop has chosen once it has seen a list of addresses, first place by first place
abbrev after : Bool → List Addr → Chosen → Chosen
after client_public [] st = st
after client_public (a ∷ xs) st =
    let skipped = after client_public xs st in
    let added = after client_public xs (choose client_public a st) in
    if is_in a st.seen then skipped else added

add_all-after :
    (families : Families) (client_public automatic : Bool) (cs : List (Option Addr)) (st : Chosen)
    → add_all families client_public automatic cs st
      ≡ after client_public (usable families automatic cs) st
unfolding add_all add_candidate
add_all-after families client_public automatic [] st = refl
add_all-after families client_public automatic (none ∷ cs) st =
    add_all-after families client_public automatic cs st
add_all-after families client_public automatic (some c ∷ cs) st =
    rw (wanted-usable families automatic (unmap c) (unmap-again c))
      (elim (Bool-cases (is_wanted families automatic (unmap c))) [
        | inr bad ↦ rw bad (add_all-after families client_public automatic cs st)
        | inl good ↦ rw good (elim (Bool-cases (is_in (unmap c) st.seen)) [
          | inl old ↦ rw old (add_all-after families client_public automatic cs st)
          | inr new ↦ rw new (
              add_all-after families client_public automatic cs (choose client_public (unmap c) st))
        ])
      ])

after-append :
    (client_public : Bool) (xs ys : List Addr) (st : Chosen)
    → after client_public ys (after client_public xs st) ≡ after client_public (xs ++ ys) st
after-append client_public [] ys st = refl
after-append client_public (a ∷ xs) ys st = elim (Bool-cases (is_in a st.seen)) [
  | inl old ↦ rw old (after-append client_public xs ys st)
  | inr new ↦ rw new (after-append client_public xs ys (choose client_public a st))
]

after-filter :
    (client_public : Bool) (xs : List Addr) (st : Chosen)
    → ((after client_public xs st).near
        ≡ st.near ++ filter (λ a. not (goes_last client_public a)) (distinct st.seen xs))
      × ((after client_public xs st).far
          ≡ st.far ++ filter (goes_last client_public) (distinct st.seen xs))
unfolding choose
after-filter client_public [] st = (sym (append-nil st.near), sym (append-nil st.far))
after-filter client_public (a ∷ xs) st = elim (Bool-cases (is_in a st.seen)) [
  | inl old ↦ rw old (after-filter client_public xs st)
  | inr new ↦
      rw (new, outside-public a)
        (elim (Bool-cases (goes_last client_public a)) [
          | inl last ↦
              let (near, far) =
                after-filter client_public xs
                  (record st { seen = a ∷ st.seen; far = st.far ++ a ∷ [] }) in
              rw last (near, far ∙ append_assoc st.far (a ∷ []) _)
          | inr first ↦
              let (near, far) =
                after-filter client_public xs
                  (record st { seen = a ∷ st.seen; near = st.near ++ a ∷ [] }) in
              rw first (near ∙ append_assoc st.near (a ∷ []) _, far)
        ])
]

-- orderCandidates gives the addresses, explicit ones first, each at its first place, that are of
-- a named family, neither unspecified nor multicast, and, if they are automatic, neither loopback
-- nor link-local: those that IsPublicIP takes for public, which are the addresses of IPv4 outside
-- its loopback, link-local and private networks, or all if the client is at no such address, and
-- behind them the others, both in this order.
pub order_candidates-filter :
    (explicit auto : List (Option Addr)) (client : Option Addr) (families : Families)
    → let all = distinct [] (usable families false explicit ++ usable families true auto) in
      order_candidates explicit auto client families
      ≡ filter (λ a. not (goes_last (is_client_outside client) a)) all
        ++ filter (goes_last (is_client_outside client)) all
unfolding order_candidates
order_candidates-filter explicit auto client families =
    let public = is_client_outside client in
    let nothing : Chosen = record { near = []; far = []; seen = [] } in
    let chosen =
      add_all-after families public true auto (add_all families public false explicit nothing)
      ∙ ap (after public (usable families true auto))
          (add_all-after families public false explicit nothing)
      ∙ after-append public (usable families false explicit) (usable families true auto) nothing in
    let (near, far) =
      after-filter public (usable families false explicit ++ usable families true auto) nothing in
    rw (client-outside client) (ap (λ st. st.near ++ st.far) chosen ∙ ap₂ ◌++◌ near far)
