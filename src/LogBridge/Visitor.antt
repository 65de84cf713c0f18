-- ===== src/LogBridge/Visitor.antt =====
-- `LogVisitor` of src-tauri/src/gui.rs: the message of an event from its fields, and the text that
-- `on_event` makes of it.
use grpc_server_rust.Log.{quote}
use grpc_server_rust.Prelude.{
  suc, ◌-◌, ◌≡◌, refl, ap, ◌∙◌, arith, Bool, false, Option, none, some, List, [], ◌∷◌, ◌++◌, Str,
  str, str_eq, str_eq_refl, length, take, drop, starts_with, ends_with, if◌then◌else◌, sym,
  append-nil, All, length-append, drop-append, take-append, ◌==◌,
}
use grpc_server_rust.LogBridge.{unquoted, event_text}

-- What `event.record` hands to the visitor of a field: its name, and its value as a string or the text
-- of its `{:?}`.
pub data Field : Type 0 where
  string debug : Str → Str → Field

-- `self.message`; none stands for a panic in the visitor.
abbrev pub Visitor : Type 0
Visitor = Option Str

unfoldable pub record_str : Str → Str → Str → Visitor
unfolding str_eq
record_str name value message = if str_eq name (str "message") then some value else some message

unfoldable pub record_debug : Str → Str → Str → Visitor
unfolding str_eq unquoted
record_debug name debug_str message =
    if str_eq name (str "message") then unquoted debug_str else some message

abbrev pub visit : Field → Str → Visitor
visit (string name value) message = record_str name value message
visit (debug name debug_str) message = record_debug name debug_str message

-- `event.record(&mut visitor)`, field by field.
abbrev pub visit_rest : (Str → Visitor) → Visitor → Visitor
visit_rest f none = none
visit_rest f (some message) = f message

unfoldable pub visited : List Field → Str → Visitor
unfolding record_str record_debug
visited [] message = some message
visited (f ∷ fs) message = visit_rest (visited fs) (visit f message)

abbrev pub text_of : Str → Visitor → Option Str
text_of level none = none
text_of level (some message) = some (event_text level message)

-- The text that `on_event` sends, from the fields of the event.
unfoldable pub text_of_event : Str → List Field → Option Str
unfolding visited event_text
text_of_event level fields = text_of level (visited fields [])

-- A field that is not the message.
abbrev pub IsOther : Field → Type 0
IsOther (string name value) = str_eq name (str "message") ≡ false
IsOther (debug name value) = str_eq name (str "message") ≡ false

visit-IsOther : (f : Field) (message : Str) → IsOther f → visit f message ≡ some message
unfolding record_str record_debug
visit-IsOther (string name value) message h = rw h
visit-IsOther (debug name value) message h = rw h

visited-IsOther :
    (fs rest : List Field) (message : Str)
    → All IsOther fs
    → visited (fs ++ rest) message ≡ visited rest message
unfolding visited
visited-IsOther [] rest message h = refl
visited-IsOther (f ∷ fs) rest message (hf, hfs) =
    ap (visit_rest (visited (fs ++ rest))) (visit-IsOther f message hf)
    ∙ visited-IsOther fs rest message hfs

-- The fields of an event with one message, which the macros of tracing record by its `{:?}`.
abbrev pub event_with : List Field → Str → List Field → List Field
event_with before debug_str after = before ++ debug (str "message") debug_str ∷ after

module _ (before after : List Field) (hb : All IsOther before) (ha : All IsOther after) where
  after_message : (v : Visitor) → visit_rest (visited after) v ≡ v
  unfolding visited
  after_message none = refl
  after_message (some message) =
      sym (ap (λ fs. visited fs message) (append-nil after)) ∙ visited-IsOther after [] message ha

  visited-event_with :
      (debug_str : Str) → visited (event_with before debug_str after) [] ≡ unquoted debug_str
  unfolding visited record_debug str_eq
  visited-event_with debug_str = visited-IsOther before _ [] hb ∙ after_message (unquoted debug_str)

  text_of_event-event_with :
      (level debug_str : Str)
      → text_of_event level (event_with before debug_str after) ≡ text_of level (unquoted debug_str)
  unfolding text_of_event
  text_of_event-event_with level debug_str = ap (text_of level) (visited-event_with debug_str)

length-quote : (text : Str) → length (quote text) ≡ suc (suc (length text))
length-quote text = omega (arith, length-append text (34 ∷ []))

last-quote : (text : Str) → drop (length (quote text) - 1) (quote text) ≡ 34 ∷ []
last-quote text =
    ap (λ n. drop n (quote text)) {y = length (34 ∷ text)} (omega (arith, length-quote text))
    ∙ drop-append (34 ∷ text) (34 ∷ [])

inner-quote : (text : Str) → take (length (quote text) - 2) (drop 1 (quote text)) ≡ text
inner-quote text =
    ap (λ n. take n (text ++ 34 ∷ [])) (omega (arith, length-quote text))
    ∙ take-append text (34 ∷ [])

unquoted-quote : (text : Str) → unquoted (quote text) ≡ some text
unfolding unquoted ends_with starts_with
unquoted-quote text =
    ground (arith, last-quote text, inner-quote text, length-quote text, str_eq_refl (34 ∷ []))

abbrev pub first_is_quote : Str → Bool
first_is_quote [] = false
first_is_quote (b ∷ s) = b == 34

unquoted-plain : (text : Str) → first_is_quote text ≡ false → unquoted text ≡ some text
unfolding unquoted starts_with
unquoted-plain [] h = refl
unquoted-plain (b ∷ s) h = ground (arith, h)

unquoted-one_quote : unquoted (34 ∷ []) ≡ none
unfolding unquoted starts_with ends_with str_eq
unquoted-one_quote = refl

-- An event whose fields hold one message, recorded by its `{:?}`, and otherwise fields of other names:
-- a message that does not begin with a quote is sent behind its level (the level alone where it is
-- empty), a text in quotes is sent without them, and a message that is one quote panics in the thread
-- that logs it.
pub text_of_event_lem :
    (before after : List Field) (level plain quoted : Str)
    → All IsOther before
    → All IsOther after
    → first_is_quote plain ≡ false
    → (text_of_event level (event_with before plain after) ≡ some (event_text level plain))
      × (text_of_event level (event_with before (quote quoted) after)
          ≡ some (event_text level quoted))
      × (text_of_event level (event_with before (34 ∷ []) after) ≡ none)
text_of_event_lem before after level plain quoted hb ha h =
    let sent = text_of_event-event_with before after hb ha level in
    (
      sent plain ∙ ap (text_of level) (unquoted-plain plain h),
      sent (quote quoted) ∙ ap (text_of level) (unquoted-quote quoted),
      sent (34 ∷ []) ∙ ap (text_of level) unquoted-one_quote,
    )
