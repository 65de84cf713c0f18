-- ===== src/Models/Buffer.antt =====
-- `MessageBuffer` of src-tauri/src/models.rs, a `String` that is filled in place. Its capacity is that
-- of the memory and does not show.
use grpc_server_rust.Prelude.{ℕ, ◌≡◌, ◌∙◌, List, [], ◌∷◌, ◌++◌, append_assoc, append-nil, sym, Str}

pub record MessageBuffer : Type 0 where
  pub inner : Str

abbrev pub with_capacity : ℕ → MessageBuffer
with_capacity capacity = record { inner = [] }

abbrev pub clear : MessageBuffer → MessageBuffer
clear b = record { inner = [] }

abbrev pub push_str : MessageBuffer → Str → MessageBuffer
push_str b s = record { inner = b.inner ++ s }

-- A `Cow` is the text that it borrows or owns.
abbrev pub push_cow : MessageBuffer → Str → MessageBuffer
push_cow b s = record { inner = b.inner ++ s }

abbrev pub into_string : MessageBuffer → Str
into_string b = b.inner

abbrev pub as_str : MessageBuffer → Str
as_str b = b.inner

-- Texts that are push_all one after the other.
abbrev push_all : MessageBuffer → List Str → MessageBuffer
push_all b [] = b
push_all b (s ∷ ss) = push_all (push_str b s) ss

abbrev flat : List Str → Str
flat [] = []
flat (s ∷ ss) = s ++ flat ss

-- The text of a buffer is what it held with all that was push_all since, in order.
into_string-push_all :
    (b : MessageBuffer) (ss : List Str) → into_string (push_all b ss) ≡ b.inner ++ flat ss
into_string-push_all b [] = sym (append-nil b.inner)
into_string-push_all b (s ∷ ss) =
    into_string-push_all (push_str b s) ss ∙ append_assoc b.inner s (flat ss)
