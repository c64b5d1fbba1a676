-- ===== src/Contact.antt =====
-- Contact and Account of src/contact.
pub mod Backup
use ceema.Prelude.{List, ℕ}
use ceema.Encoding.Crypto.{Crypto}

pub record Contact : Type 0 where
  pub id : List ℕ
  pub pk : List ℕ
  pub nick : List ℕ

-- `Contact(id, pk)`: the nickname is the id as text.
abbrev pub contact : List ℕ → List ℕ → Contact
contact id pk = record { id = id; pk = pk; nick = id }

pub record Account : Type 0 where
  pub contact_part : Contact
  pub open contact_part use *
  pub sk : List ℕ

-- `Account(id, sk)`: the public key is derived from the secret one.
abbrev pub account : Crypto → List ℕ → List ℕ → Account
account c id sk = record { contact_part = contact id (c.derive sk); sk = sk }
