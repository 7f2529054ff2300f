-- ===== src/IpRegistry/Keep.antt =====
-- The list of lib/ipreg/ipreg.go as a map: its keys, and what each change makes of a lookup.
use nps.Prelude.{
  ℕ, ◌≡◌, refl, sym, ap, ap₂, ◌∙◌, Option, none, some, [], ◌∷◌, Bool, true, false, ◌&&◌, not, ◌==◌,
  ==_iff, if◌then◌else◌, Bool-cases, inl, inr, arith,
}
use nps.IpRegistry.{Registration, Registry, is_at, lookup, keep, remove, store}

-- No key has two entries.
abbrev pub Distinct : Registry → Type 0
Distinct [] = Unit
Distinct (e ∷ es) = (lookup es e.client e.ip ≡ none) × Distinct es

-- What a test leaves of a lookup.
abbrev pub kept : (Registration → Bool) → ℕ → ℕ → Option ℕ → Option ℕ
kept p client ip none = none
kept p client ip (some until) =
    if p (record { client = client; ip = ip; until = until }) then some until else none

lookup-keep-none :
    (p : Registration → Bool) (reg : Registry) (client ip : ℕ)
    → lookup reg client ip ≡ none
    → lookup (keep p reg) client ip ≡ none
lookup-keep-none p [] client ip h = refl
lookup-keep-none p (e ∷ es) client ip h = elim (Bool-cases (is_at client ip e)) [
  | inl here ↦ absurd (ground (arith, here, h))
  | inr other ↦
      let later = lookup-keep-none p es client ip (ground (arith, other, h)) in
      elim (Bool-cases (p e)) [ inl stays ↦ rw (stays, other) later | inr goes ↦ rw goes later ]
]

pub keep-Distinct :
    (p : Registration → Bool) (reg : Registry) → Distinct reg → Distinct (keep p reg)
keep-Distinct p [] d = tt
keep-Distinct p (e ∷ es) d = elim (Bool-cases (p e)) [
  | inl stays ↦ rw stays (lookup-keep-none p es e.client e.ip d.0, keep-Distinct p es d.1)
  | inr goes ↦ rw goes (keep-Distinct p es d.1)
]

-- An entry at a key is that key's registration.
pub same_key :
    {A : Type 0} (f : ℕ → ℕ → A) (client ip c i : ℕ)
    → (client == c && ip == i) ≡ true
    → f c i ≡ f client ip
same_key f client ip c i h =
    ap₂ f (sym ((==_iff client c).0 (ground (arith, h))))
      (sym ((==_iff ip i).0 (ground (arith, h))))

at_key :
    (client ip : ℕ) (e : Registration)
    → is_at client ip e ≡ true
    → e ≡ record { client = client; ip = ip; until = e.until }
at_key client ip e h =
    ap₂ (λ c i. record { client = c; ip = i; until = e.until })
      (sym ((==_iff client e.client).0 (ground (arith, h))))
      (sym ((==_iff ip e.ip).0 (ground (arith, h))))

pub lookup-keep :
    (p : Registration → Bool) (reg : Registry) (client ip : ℕ)
    → Distinct reg
    → lookup (keep p reg) client ip ≡ kept p client ip (lookup reg client ip)
lookup-keep p [] client ip d = refl
lookup-keep p (e ∷ es) client ip d = elim (Bool-cases (is_at client ip e)) [
  | inl here ↦
      let same = ap p (at_key client ip e here) in
      elim (Bool-cases (p e)) [
        | inl stays ↦ rw (stays, here, sym same ∙ stays) refl
        | inr goes ↦
            rw (goes, here, sym same ∙ goes)
              (lookup-keep-none p es client ip (
                ap₂ (lookup es) ((==_iff client e.client).0 (ground (arith, here)))
                  ((==_iff ip e.ip).0 (ground (arith, here)))
                ∙ d.0))
      ]
  | inr other ↦ elim (Bool-cases (p e)) [
    | inl stays ↦ rw (stays, other) (lookup-keep p es client ip d.1)
    | inr goes ↦ rw (goes, other) (lookup-keep p es client ip d.1)
  ]
]

-- Removing a key leaves no entry there, and every other key as it was.
lookup-remove :
    (reg : Registry) (client ip c i : ℕ)
    → Distinct reg
    → lookup (remove reg client ip) c i ≡ (if client == c && ip == i then none else lookup reg c i)
lookup-remove reg client ip c i d =
    lookup-keep (λ e. not (is_at client ip e)) reg c i d ∙ by_key (lookup reg c i)
  where
    by_key :
        (o : Option ℕ)
        → kept (λ e. not (is_at client ip e)) c i o ≡ (if client == c && ip == i then none else o)
    by_key none = ground arith
    by_key (some until) = ground arith

pub remove-Distinct :
    (reg : Registry) (client ip : ℕ) → Distinct reg → Distinct (remove reg client ip)
remove-Distinct reg client ip d = keep-Distinct (λ e. not (is_at client ip e)) reg d

pub store-Distinct :
    (reg : Registry) (client ip until : ℕ) → Distinct reg → Distinct (store reg client ip until)
store-Distinct reg client ip until d =
    (lookup-remove reg client ip client ip d ∙ ground arith, remove-Distinct reg client ip d)

-- The time until which an address is registered, and 0 when it is not.
abbrev pub time_of : Option ℕ → ℕ
time_of none = 0
time_of (some until) = until

abbrev pub until_of : Registry → ℕ → ℕ → ℕ
until_of reg client ip = time_of (lookup reg client ip)

pub until_of-remove :
    (reg : Registry) (client ip c i : ℕ)
    → Distinct reg
    → until_of (remove reg client ip) c i ≡ (if client == c && ip == i then 0 else until_of reg c i)
until_of-remove reg client ip c i d = ap time_of (lookup-remove reg client ip c i d) ∙ ground arith

pub until_of-store :
    (reg : Registry) (client ip until c i : ℕ)
    → Distinct reg
    → until_of (store reg client ip until) c i
      ≡ (if client == c && ip == i then until else until_of reg c i)
until_of-store reg client ip until c i d = elim (Bool-cases (client == c && ip == i)) [
  | inl here ↦ rw here (ground (arith, here))
  | inr other ↦ elsewhere other (ground (arith, other))
]
  where
    not_there :
        (client == c && ip == i) ≡ false
        → (if client == c && ip == i then 0 else until_of reg c i)
          ≡ (if client == c && ip == i then until else until_of reg c i)
    not_there other = rw other refl

    elsewhere :
        (client == c && ip == i) ≡ false
        → (c == client && i == ip) ≡ false
        → until_of (store reg client ip until) c i
          ≡ (if client == c && ip == i then until else until_of reg c i)
    elsewhere other other' = rw other' (until_of-remove reg client ip c i d ∙ not_there other)
