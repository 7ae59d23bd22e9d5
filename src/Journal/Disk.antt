-- ===== src/Journal/Disk.antt =====
-- The journal's storage (crates/shipshape-core/src/ports.rs, `JournalStore`) and the JSON text in
-- it. The text is serde_json's: a codec of lines and of manifests, with the laws that the journal
-- relies on. Files are kept by the run that they belong to.
use ossctl.Base.{ℕ, ◌≡◌, Bool, false, Option, some, List}
use ossctl.Base.Dict.{Dict}
use ossctl.Journal.{JournalEvent, RunState}

-- `io::ErrorKind`, as far as the journal tells kinds apart
pub data IoError : Type 0 where
  would_block not_found invalid_input invalid_data other : IoError

pub data Io (A : Type 0) : Type 0 where
  ok : A → Io A
  err : IoError → Io A

-- `serde_json::to_string`, `from_str` and `from_slice`, and the `Envelope` that is read first
pub record Codec : Type 1 where
  pub Line : Type 0
  pub Bytes : Type 0
  pub encode : JournalEvent → Line
  -- `line.trim().is_empty()`
  pub is_blank : Line → Bool
  pub envelope : Line → Option ℕ
  pub decode : Line → Option JournalEvent
  pub encode_state : RunState → Bytes
  pub decode_state : Bytes → Option RunState
  pub is_blank-encode : (e : JournalEvent) → is_blank (encode e) ≡ false
  pub envelope-encode : (e : JournalEvent) → envelope (encode e) ≡ some e.schema_version
  pub decode-encode : (e : JournalEvent) → decode (encode e) ≡ some e
  pub decode_state-encode_state : (s : RunState) → decode_state (encode_state s) ≡ some s

module _ (c : Codec) where
  open c use {Line, Bytes}

  pub record Disk : Type 0 where
    pub journals : Dict (List Line)
    pub manifests : Dict Bytes
    pub locked : Bool
