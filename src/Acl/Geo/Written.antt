-- ===== src/Acl/Geo/Written.antt =====
-- The decoders of lib/acl/geodata.go against files that are written by the schema.
use nps.Prelude.{
  ℕ, ◌≡◌, ◌≤◌, refl, sym, ap, ◌∙◌, Option, some, List, [], ◌∷◌, ◌++◌, false, ge→ltb, map, All,
  append-nil, append_assoc,
}
use nps.Text.{Text, is_empty, to_lower}
use nps.Net.{Addr, width, unmap, Prefix}
use nps.Acl.Proto.{Bytes, proto_fields}
use nps.Acl.Proto.Encoded.{Item, number, bytes, field, put_items, Fits, proto_fields-put}
use nps.Acl.Geo.{
  from_slice, prefix_from, cidr_fields, judged, cidr_of, parse_cidr, added, entry_fields, no_parts,
  complete, entry_of, parse_entry, append_at, include, list_fields, some_entry, list_of,
  parse_geo_ip,
}

-- What a part of an entry is: a message, and what its parser reads from it
pub record Part {ℓ} (A : Type ℓ) : Type ℓ where
  pub message : Bytes
  pub meaning : A

-- An entry: a category with its parts
pub record Entry {ℓ} (A : Type ℓ) : Type ℓ where
  pub name : Text
  pub parts : List (Part A)

module _ {ℓ} {A : Type ℓ} where
  abbrev pub part_items : List (Part A) → List Item
  part_items [] = []
  part_items (p ∷ ps) = bytes 2 p.message ∷ part_items ps

  abbrev pub entry_items : Entry A → List Item
  entry_items e = bytes 1 e.name ∷ part_items e.parts

  abbrev pub list_items : List (Entry A) → List Item
  list_items [] = []
  list_items (e ∷ es) = bytes 1 (put_items (entry_items e)) ∷ list_items es

  abbrev pub meanings : List (Part A) → List A
  meanings [] = []
  meanings (p ∷ ps) = p.meaning ∷ meanings ps

  -- The table of the entries in turn
  abbrev pub table : List (Entry A) → List (Text × List A) → List (Text × List A)
  table [] m = m
  table (e ∷ es) m = table es (append_at (to_lower e.name) (meanings e.parts) m)

  -- An entry that is complete, with parts that are read as they are meant
  abbrev pub Complete : (Bytes → Option A) → Entry A → Type ℓ
  Complete part e =
      (is_empty e.name ≡ false)
      × (no_parts e.parts ≡ false)
      × All (λ p. part p.message ≡ some p.meaning) e.parts
      × All Fits (entry_items e)

  entry_fields-parts :
      (part : Bytes → Option A) (ps : List (Part A)) (name : Text) (xs : List A)
      → All (λ p. part p.message ≡ some p.meaning) ps
      → entry_fields part (map field (part_items ps)) name xs ≡ (name, xs ++ meanings ps)
  unfolding entry_fields
  entry_fields-parts part [] name xs h = ap (λ ys. (name, ys)) (sym (append-nil xs))
  entry_fields-parts part (p ∷ ps) name xs h =
      ap (λ o. entry_fields part (map field (part_items ps)) name (added o xs)) h.0
      ∙ entry_fields-parts part ps name (xs ++ p.meaning ∷ []) h.1
      ∙ ap (λ ys. (name, ys)) (append_assoc xs (p.meaning ∷ []) (meanings ps))

  no_parts-meanings : (ps : List (Part A)) → no_parts (meanings ps) ≡ no_parts ps
  no_parts-meanings [] = refl
  no_parts-meanings (p ∷ ps) = refl

  parse_entry-written :
      (part : Bytes → Option A) (e : Entry A)
      → Complete part e
      → parse_entry part (put_items (entry_items e)) ≡ some (e.name, meanings e.parts)
  unfolding parse_entry entry_fields
  parse_entry-written part e (named, some_part, read, fits) =
      ap (entry_of part) (proto_fields-put (entry_items e) fits)
      ∙ ap complete (entry_fields-parts part e.parts e.name [] read)
      ∙ rw (named, no_parts-meanings e.parts, some_part) refl

  list_fields-written :
      (part : Bytes → Option A) (es : List (Entry A)) (m : List (Text × List A))
      → All (Complete part) es
      → list_fields part (map field (list_items es)) (some m) ≡ some (table es m)
  unfolding list_fields
  list_fields-written part [] m h = refl
  list_fields-written part (e ∷ es) m h =
      ap (λ o. list_fields part (map field (list_items es)) (include m o))
        (parse_entry-written part e h.0)
      ∙ list_fields-written part es (append_at (to_lower e.name) (meanings e.parts) m) h.1

  -- Nothing is taken out of the table.
  no_parts-table :
      (es : List (Entry A)) (m : List (Text × List A))
      → no_parts m ≡ false
      → no_parts (table es m) ≡ false
  no_parts-table [] m h = h
  no_parts-table (e ∷ es) m h =
      no_parts-table es (append_at (to_lower e.name) (meanings e.parts) m) refl

  list_of-written :
      (part : Bytes → Option A) (e : Entry A) (es : List (Entry A))
      → All (Complete part) (e ∷ es)
      → All Fits (list_items (e ∷ es))
      → list_of part (proto_fields (put_items (list_items (e ∷ es)))) ≡ some (table (e ∷ es) [])
  unfolding list_of
  list_of-written part e es h fits =
      ap (list_of part) (proto_fields-put (list_items (e ∷ es)) fits)
      ∙ ap some_entry (list_fields-written part (e ∷ es) [] h)
      ∙ rw (no_parts-table es (append_at (to_lower e.name) (meanings e.parts) []) refl) refl

-- A network as the file has it, with the address that its bytes stand for
pub record Network : Type 0 where
  pub slice : Bytes
  pub addr : Addr
  pub bits : ℕ

abbrev pub network_items : Network → List Item
network_items n = bytes 1 n.slice ∷ number 2 n.bits ∷ []

abbrev pub network_part : Network → Part (Option Prefix)
network_part n = record {
  message = put_items (network_items n);
  meaning = prefix_from (unmap n.addr) n.bits;
}

-- The bytes are the address, and the bits are within its width.
abbrev pub IsNetwork : Network → Type 0
IsNetwork n =
    (from_slice n.slice ≡ some n.addr) × (n.bits ≤ width n.addr) × All Fits (network_items n)

pub parse_cidr-written :
    (n : Network)
    → IsNetwork n
    → parse_cidr (put_items (network_items n)) ≡ some (prefix_from (unmap n.addr) n.bits)
unfolding parse_cidr cidr_fields judged
parse_cidr-written n (is, fit, fits) =
    ap cidr_of (proto_fields-put (network_items n) fits)
    ∙ ap (λ o. judged o n.bits) is
    ∙ rw (ge→ltb (width n.addr) n.bits fit) refl

-- A category with its networks
pub record Category : Type 0 where
  pub name : Text
  pub networks : List Network

abbrev pub category_entry : Category → Entry (Option Prefix)
category_entry c = record { name = c.name; parts = map network_part c.networks }

abbrev pub IsCategory : Category → Type 0
IsCategory c =
    (is_empty c.name ≡ false)
    × (no_parts c.networks ≡ false)
    × All IsNetwork c.networks
    × All Fits (entry_items (category_entry c))

networks-read :
    (ns : List Network)
    → All IsNetwork ns
    → All (λ p. parse_cidr p.message ≡ some p.meaning) (map network_part ns)
networks-read [] h = tt
networks-read (n ∷ ns) h = (parse_cidr-written n h.0, networks-read ns h.1)

some-networks : (ns : List Network) → no_parts (map network_part ns) ≡ no_parts ns
some-networks [] = refl
some-networks (n ∷ ns) = refl

categories-Complete :
    (cs : List Category) → All IsCategory cs → All (Complete parse_cidr) (map category_entry cs)
categories-Complete [] h = tt
categories-Complete (c ∷ cs) ((named, some_net, nets, fits), h) = (
  (named, some-networks c.networks ∙ some_net, networks-read c.networks nets, fits),
  categories-Complete cs h,
)

-- For one or more categories, each with a name and some networks, whose bytes are addresses with
-- bits within their width, and whose numbers and lengths are 64-bit words: the GeoIP file that is
-- written of them is decoded to their table, the networks of each name in lower case in turn,
-- unmapped and masked.
pub parse_geo_ip-written :
    (c : Category) (cs : List Category)
    → All IsCategory (c ∷ cs)
    → All Fits (list_items (map category_entry (c ∷ cs)))
    → parse_geo_ip (put_items (list_items (map category_entry (c ∷ cs))))
      ≡ some (table (map category_entry (c ∷ cs)) [])
unfolding parse_geo_ip
parse_geo_ip-written c cs h fits =
    list_of-written parse_cidr (category_entry c) (map category_entry cs)
      (categories-Complete (c ∷ cs) h) fits
