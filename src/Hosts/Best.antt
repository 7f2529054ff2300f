-- ===== src/Hosts/Best.antt =====
-- GetInfoByHost of lib/file/db.go finds the best of the entries that serve a request.
use nps.Prelude.{
  ◌<◌, ℕ, ◌≡◌, refl, sym, Option, none, some, List, [], ◌∷◌, Bool, true, false, ◌⊎◌, inl, inr,
  length, arith, if_both, subst, if◌then◌else◌,
}
use nps.Hosts.Rules.{specificity}
use nps.Hosts.Routes.{
  Host, Request, rooted, serves, before, better, take_better, best_of, get_info_by_host,
}
use nps.Hosts.Isolation.{InHosts}

before_self : (e : Bool) (s l i : ℕ) → before e s l i e s l i ≡ false
unfolding before
before_self true s l i = ground arith
before_self false s l i = ground arith

-- What does not come before one does not come before a better one.
before_trans :
    (e e' e'' : Bool) (s l i s' l' i' s'' l'' i'' : ℕ)
    → before e' s' l' i' e s l i ≡ true
    → before e'' s'' l'' i'' e s l i ≡ false
    → before e'' s'' l'' i'' e' s' l' i' ≡ false
unfolding before
before_trans e e' e'' s l i s' l' i' s'' l'' i'' h n = ground arith

better_self : (h : Host) → better h h ≡ false
unfolding better
better_self h =
    before_self (specificity h.host).0 (specificity h.host).1 (length (rooted h.location)) h.id

better_trans : (b h x : Host) → better h b ≡ true → better x b ≡ false → better x h ≡ false
unfolding better
better_trans b h x =
    before_trans (specificity b.host).0 (specificity h.host).0 (specificity x.host).0
      (specificity b.host).1 (length (rooted b.location)) b.id (specificity h.host).1
      (length (rooted h.location)) h.id (specificity x.host).1 (length (rooted x.location)) x.id

-- An entry is not passed over: it does not serve the request, or it is no better than the answer.
abbrev NotBeaten : Request → Host → Option Host → Type 0
NotBeaten r h none = serves r h ≡ false
NotBeaten r h (some b) = (serves r h ≡ false) ⊎ (better h b ≡ false)

-- A turn of the loop.
abbrev turned : Request → Host → Option Host → Option Host
turned r x best = if serves r x then take_better best x else best

turned-keeps :
    (r : Request) (h x : Host) (best : Option Host)
    → NotBeaten r h best
    → NotBeaten r h (turned r x best)
turned-keeps r h x none n = if_both (NotBeaten r h) (serves r x) (λ e. inl n) (λ e. n)
turned-keeps r h x (some b) n =
    if_both (NotBeaten r h) (serves r x)
      (λ e. if_both (NotBeaten r h) (better x b) (λ better_x. still better_x n) (λ e. n)) (λ e. n)
  where
    still : better x b ≡ true → (serves r h ≡ false) ⊎ (better h b ≡ false) → NotBeaten r h (some x)
    still e (inl n) = inl n
    still e (inr n) = inr (better_trans b x h e n)

turned-takes : (r : Request) (x : Host) (best : Option Host) → NotBeaten r x (turned r x best)
turned-takes r x none = if_both (NotBeaten r x) (serves r x) (λ e. inr (better_self x)) (λ e. e)
turned-takes r x (some b) =
    if_both (NotBeaten r x) (serves r x)
      (λ e. if_both (NotBeaten r x) (better x b) (λ e. inr (better_self x)) (λ n. inr n))
      (λ e. inl e)

best_of-keeps :
    (hs : List Host) (r : Request) (h : Host) (best : Option Host)
    → NotBeaten r h best
    → NotBeaten r h (best_of r hs best)
unfolding best_of
best_of-keeps [] r h best n = n
best_of-keeps (x ∷ hs) r h best n =
    best_of-keeps hs r h (turned r x best) (turned-keeps r h x best n)

best_of-NotBeaten :
    (hs : List Host) (r : Request) (h : Host) (best : Option Host)
    → InHosts h hs
    → NotBeaten r h (best_of r hs best)
unfolding best_of
best_of-NotBeaten [] r h best i = absurd i
best_of-NotBeaten (x ∷ hs) r h best (inl e) =
    best_of-keeps hs r h (turned r x best)
      (subst (λ k. NotBeaten r k (turned r x best)) (sym e) (turned-takes r x best))
best_of-NotBeaten (x ∷ hs) r h best (inr i) = best_of-NotBeaten hs r h (turned r x best) i

-- The answer is an entry that serves the request, or there is none.
abbrev pub IsServing : Request → List Host → Option Host → Type 0
IsServing r hs none = Unit
IsServing r hs (some b) = InHosts b hs × (serves r b ≡ true)

turned-IsServing :
    (r : Request) (x : Host) (hs : List Host) (best : Option Host)
    → InHosts x hs
    → IsServing r hs best
    → IsServing r hs (turned r x best)
turned-IsServing r x hs none i s = if_both (IsServing r hs) (serves r x) (λ e. (i, e)) (λ e. s)
turned-IsServing r x hs (some b) i s =
    if_both (IsServing r hs) (serves r x)
      (λ e. if_both (IsServing r hs) (better x b) (λ h. (i, e)) (λ h. s)) (λ e. s)

best_of-IsServing :
    (ks : List Host) (r : Request) (hs : List Host) (best : Option Host)
    → ((h : Host) → InHosts h ks → InHosts h hs)
    → IsServing r hs best
    → IsServing r hs (best_of r ks best)
unfolding best_of
best_of-IsServing [] r hs best within s = s
best_of-IsServing (x ∷ ks) r hs best within s =
    best_of-IsServing ks r hs (turned r x best) (λ h i. within h (inr i))
      (turned-IsServing r x hs best (within x (inl refl)) s)

-- One key of four before another: exact names first, then longer suffixes, longer locations and
-- smaller numbers.
pub data Precedes (e : Bool) (s l i : ℕ) (e' : Bool) (s' l' i' : ℕ) : Type 0 where
  by_name : e ≡ true → e' ≡ false → Precedes e s l i e' s' l' i'
  by_suffix : e ≡ e' → s' < s → Precedes e s l i e' s' l' i'
  by_location : e ≡ e' → s ≡ s' → l' < l → Precedes e s l i e' s' l' i'
  by_number : e ≡ e' → s ≡ s' → l ≡ l' → i < i' → Precedes e s l i e' s' l' i'

-- An entry comes before another in this order.
abbrev pub Outranks : Host → Host → Type 0
Outranks h b =
    Precedes (specificity h.host).0 (specificity h.host).1 (length (rooted h.location)) h.id
      (specificity b.host).0 (specificity b.host).1 (length (rooted b.location)) b.id

Precedes-before :
    (e : Bool) (s l i : ℕ) (e' : Bool) (s' l' i' : ℕ)
    → Precedes e s l i e' s' l' i'
    → before e s l i e' s' l' i' ≡ true
unfolding before
Precedes-before e s l i e' s' l' i' (by_name x y) = ground (arith, x, y)
Precedes-before e s l i e' s' l' i' (by_suffix x y) = rw x (same_name e')
  where
    same_name : (k : Bool) → before k s l i k s' l' i' ≡ true
    same_name true = ground (arith, y)
    same_name false = ground (arith, y)
Precedes-before e s l i e' s' l' i' (by_location x y z) = rw x (same_name e')
  where
    same_name : (k : Bool) → before k s l i k s' l' i' ≡ true
    same_name true = ground (arith, y, z)
    same_name false = ground (arith, y, z)
Precedes-before e s l i e' s' l' i' (by_number x y z u) = rw x (same_name e')
  where
    same_name : (k : Bool) → before k s l i k s' l' i' ≡ true
    same_name true = ground (arith, y, z, u)
    same_name false = ground (arith, y, z, u)

Outranks-better : (h b : Host) → Outranks h b → better h b ≡ true
unfolding better
Outranks-better h b o =
    Precedes-before (specificity h.host).0 (specificity h.host).1 (length (rooted h.location)) h.id
      (specificity b.host).0 (specificity b.host).1 (length (rooted b.location)) b.id o

-- An entry does not serve the request, or there is an answer and the entry does not outrank it.
abbrev pub NotOutranking : Request → Host → Option Host → Type 0
NotOutranking r h none = serves r h ≡ false
NotOutranking r h (some b) = (serves r h ≡ false) ⊎ (¬ Outranks h b)

not_outranking : (r : Request) (h : Host) (o : Option Host) → NotBeaten r h o → NotOutranking r h o
not_outranking r h none n = n
not_outranking r h (some b) (inl n) = inl n
not_outranking r h (some b) (inr n) = inr (λ o. cc (Outranks-better h b o, n))

-- GetInfoByHost answers with an entry of the list that serves the request, or with none; and any
-- entry of the list does not serve the request, or there is an answer and the entry does not
-- outrank it: an exact name comes before a wildcard, then a longer suffix, a longer location and
-- a smaller number first.
pub get_info_by_host-best :
    (r : Request) (hosts : List Host) (h : Host)
    → InHosts h hosts
    → IsServing r hosts (get_info_by_host r hosts) × NotOutranking r h (get_info_by_host r hosts)
unfolding get_info_by_host
get_info_by_host-best r hosts h i = (
  best_of-IsServing hosts r hosts none (λ k j. j) tt,
  not_outranking r h (get_info_by_host r hosts) (best_of-NotBeaten hosts r h none i),
)
