-- ===== src/Contacts.antt =====
-- ContactStore of src/threepl/ContactStore.h and ContactStore.cpp. The hash map is a list of ids with
-- their contacts, where `none` is the null pointer of an id that the server does not know.
use ceema.Prelude.{
  ℕ, Bool, take, true, false, ◌==◌, Option, none, some, List, [], ◌∷◌, ◌++◌, if◌then◌else◌, list_eq,
  Result, ok, err, out_of_bounds, ◌>>=◌,
}
use ceema.Encoding.Hex.{hex_decode, hex_encode}
use ceema.Contact.{Contact, contact}
use ceema.Groups.{from_string}

abbrev pub Contacts : Type 0
Contacts = List (List ℕ × Option Contact)

-- `m_idmap.find(id)`
unfoldable pub find : List ℕ → Contacts → Option (Option Contact)
find id [] = none
find id ((key, c) ∷ contacts) =
    let rest = find id contacts in if list_eq key id then some c else rest

unfoldable pub has_contact : List ℕ → Contacts → Bool
unfolding find
has_contact id contacts = elim (find id contacts) [ none ↦ false | some c ↦ true ]

-- A missing id is the end of the map, which must not be read.
unfoldable pub get_contact : List ℕ → Contacts → Result (Option Contact)
unfolding find
get_contact id contacts = elim (find id contacts) [ none ↦ err out_of_bounds | some c ↦ ok c ]

-- `m_idmap.emplace`, which leaves an id that is there as it is.
unfoldable pub emplace : List ℕ → Option Contact → Contacts → Contacts
unfolding has_contact
emplace id c contacts = if has_contact id contacts then contacts else contacts ++ ((id, c) ∷ [])

unfoldable pub add_contact : Contact → Contacts → Contacts
unfolding emplace
add_contact c contacts = emplace c.id (some c) contacts

-- The future of `fetch_contact`: a value, or a request of the identity server.
pub data Fetch : Type 0 where
  ready : Option Contact → Fetch
  asked : Fetch

unfoldable pub fetch_contact : List ℕ → Contacts → Fetch
unfolding find
fetch_contact id contacts = elim (find id contacts) [ none ↦ asked | some c ↦ ready c ]

-- The callback of `fetch_contact`, given the answer of the server.
unfoldable pub fetched : List ℕ → Result Contact → Contacts → Result (Option Contact) × Contacts
unfolding emplace
fetched id (ok c) contacts = (ok (some c), emplace id (some c) contacts)
fetched id (err e) contacts = (err e, emplace id none contacts)

-- What is read of a buddy: its name, and the text of its public key, if any.
pub record Buddy : Type 0 where
  pub name : List ℕ
  pub public_key : Option (List ℕ)

-- `*pk == '!'`
abbrev pub is_unknown : List ℕ → Bool
is_unknown [] = false
is_unknown (ch ∷ text) = ch == 0x21

-- The new contact of a buddy whose id is not there. A key is cut to its 32 bytes; what the array holds
-- behind a shorter one is left out.
unfoldable pub with_key : List ℕ → Option (List ℕ) → Contacts → Result Contacts
unfolding emplace add_contact
with_key id none contacts = ok contacts
with_key id (some text) contacts =
    if is_unknown text
    then ok (emplace id none contacts)
    else (hex_decode text >>= λ pk. ok (add_contact (contact id (take 32 pk)) contacts))

-- The body of the loop behind the `continue`, which skips a buddy whose name is no id.
unfoldable pub load_buddy : Result (List ℕ) → Option (List ℕ) → Contacts → Result Contacts
unfolding has_contact with_key
load_buddy (err e) key contacts = ok contacts
load_buddy (ok id) key contacts =
    if has_contact id contacts then ok contacts else with_key id key contacts

-- A buddy is loaded, and the others after it unless its key throws.
abbrev pub and_then :
    Result Contacts
    → Contacts
    → (Contacts → Result (Unit {0}) × Contacts)
    → Result (Unit {0}) × Contacts
and_then (ok contacts') contacts next = next contacts'
and_then (err e) contacts next = (err e, contacts)

-- `load_buddies`, given the buddies of the account; what it shows in the buddy list is left out.
unfoldable pub load_buddies : List Buddy → Contacts → Result (Unit {0}) × Contacts
unfolding load_buddy from_string
load_buddies [] contacts = (ok tt, contacts)
load_buddies (buddy ∷ buddies) contacts =
    and_then (load_buddy (from_string buddy.name) buddy.public_key contacts) contacts
      (load_buddies buddies)

-- What `update_buddies` stores with the buddy of a contact.
unfoldable pub stored_key : Option Contact → List ℕ
stored_key none = 0x21 ∷ []
stored_key (some c) = hex_encode c.pk
