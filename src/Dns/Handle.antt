-- ===== src/Dns/Handle.antt =====
-- handle_query of dns_responder.rs: from the bytes of a query to the bytes of the reply. Parsing and
-- building a packet, and the limit on a character-string, are of the crate simple_dns.
use lightning_mesh.Prelude.{
  ℕ, Bool, Option, none, some, ◌>>=◌, List, [], ◌∷◌, ◌++◌, if◌then◌else◌, length,
}
use lightning_mesh.Order.{Text, bytes, gtb, nat_ord}
use lightning_mesh.Book.{Book}
use lightning_mesh.Dns.{NameTable}

-- `QTYPE`, as far as the responder tells it apart.
pub data Qtype : Type 0 where
  qtype_a qtype_srv qtype_txt qtype_other : Qtype

pub record Question : Type 0 where
  -- `Name::to_string`
  pub qname : Text
  pub qtype : Qtype

-- `Packet`, of a query.
pub record Query : Type 0 where
  pub id : ℕ
  pub questions : List Question

-- `RData`, as far as the responder makes it.
pub data Rdata : Type 0 where
  rdata_a : ℕ → Rdata
  -- priority, weight, port and target
  rdata_srv : ℕ → ℕ → ℕ → Text → Rdata
  rdata_txt : List Text → Rdata
  -- mname, rname, serial, refresh, retry, expire and minimum
  rdata_soa : Text → Text → ℕ → ℕ → ℕ → ℕ → ℕ → Rdata

-- A record of class IN.
pub record ResourceRecord : Type 0 where
  pub name : Text
  pub ttl : ℕ
  pub rdata : Rdata

pub data Rcode : Type 0 where
  no_error name_error : Rcode

-- `Packet`, of a reply. It has the flag AUTHORITATIVE_ANSWER.
pub record Reply : Type 0 where
  pub id : ℕ
  pub rcode : Rcode
  pub questions : List Question
  pub answers : List ResourceRecord
  pub name_servers : List ResourceRecord

-- What the responder calls of simple_dns.
pub record SimpleDns : Type 0 where
  pub parse : Text → Option Query
  pub build_bytes_vec : Reply → Option Text
  -- Whether `TXT::add_string` takes the text.
  pub is_char_string : Text → Bool

abbrev pub max_response_len : ℕ
max_response_len = 512

unfoldable pub mesh_soa_record : ResourceRecord
mesh_soa_record = record {
  name = bytes "mesh.";
  ttl = 30;
  rdata = rdata_soa (bytes "hello.mesh.") (bytes "ops.hello.mesh.") 1 3600 600 86400 30;
}

abbrev pub a_answers : Text → List ℕ → List ResourceRecord
a_answers qname [] = []
a_answers qname (addr ∷ addrs) =
    record { name = qname; ttl = 30; rdata = rdata_a addr } ∷ a_answers qname addrs

-- `filter(|a| !a.is_empty())`
abbrev pub not_empty {ℓ} : {A : Type ℓ} → List A → Option (List A)
not_empty [] = none
not_empty (x ∷ xs) = some (x ∷ xs)

-- The character-strings of a service's map, without those that are too long.
unfoldable pub txt_strings : (Text → Bool) → Book Text Text → List Text
txt_strings is_char_string [] = []
txt_strings is_char_string ((k, v) ∷ txt) =
    let rest = txt_strings is_char_string txt in
    let s = k ++ (b'=' ∷ v) in if is_char_string s then s ∷ rest else rest

-- The records that answer a question, if its type has any at its name.
unfoldable pub answers_of : SimpleDns → NameTable → Question → Option (List ResourceRecord)
unfolding txt_strings
answers_of dns table question = elim question.qtype [
  | qtype_a ↦ do
    addrs ← table.lookup_a question.qname
    some_addrs ← not_empty addrs
    some (a_answers question.qname some_addrs)
  | qtype_srv ↦ do
    port ← table.lookup_srv question.qname
    some
        (record { name = question.qname; ttl = 30; rdata = rdata_srv 0 0 port question.qname } ∷ [])
  | qtype_txt ↦ do
    txt ← table.lookup_txt question.qname
    pairs ← not_empty txt
    some (
        record {
          name = question.qname;
          ttl = 30;
          rdata = rdata_txt (txt_strings dns.is_char_string pairs);
        }
        ∷ [])
  | qtype_other ↦ none
]

-- The reply to a parsed query, before it is built.
unfoldable pub reply_to : SimpleDns → NameTable → Query → Reply
unfolding answers_of mesh_soa_record
reply_to dns table query = elim query.questions [
  | [] ↦ record {
    id = query.id;
    rcode = name_error;
    questions = [];
    answers = [];
    name_servers = mesh_soa_record ∷ [];
  }
  | question ∷ _ ↦ elim (answers_of dns table question) [
    | some records ↦ record {
      id = query.id;
      rcode = no_error;
      questions = question ∷ [];
      answers = records;
      name_servers = [];
    }
    | none ↦ record {
      id = query.id;
      rcode = if table.exists question.qname then no_error else name_error;
      questions = question ∷ [];
      answers = [];
      name_servers = if table.exists question.qname then [] else mesh_soa_record ∷ [];
    }
  ]
]

-- No bytes stand for a packet that is dropped.
unfoldable pub handle_query : SimpleDns → Text → NameTable → Option Text
unfolding reply_to
handle_query dns query_bytes table = do
  query ← dns.parse query_bytes
  built ← dns.build_bytes_vec (reply_to dns table query)
  if gtb (length built) max_response_len then none else some built
