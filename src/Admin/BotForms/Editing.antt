-- ===== src/Admin/BotForms/Editing.antt =====
-- A bot's script goes out of the form of frontend/admin/src/components/AdminPanelRuntime.tsx, and comes
-- back into it when the bot is edited.
use pairline.Base.{
  Text, lit, truthy, trim, trim_idem, text_eq, List, [], ◌∷◌, Bool, ◌&&◌, keep, keep_id, in-keep,
  ◌≡◌, refl, ap, ◌∙◌,
}
use pairline.Admin.{BotForm, Script}
use pairline.Admin.Json.{Json, Items, Fields, get_field, strings_of}
use pairline.Admin.Types.{BotDefinition, ScriptTrigger}
use pairline.Admin.BotForms.{
  script_of, form_of, read_script_lines, read_script_string, read_script_triggers, triggers_of,
}
use pairline.Admin.BotForms.Lines.{parse_conversation_lines, join_lines, parse-join-parse}

-- The JSON of a script, as `JSON.stringify` writes the fields of the object.
abbrev strings : List Text → Items
strings [] = Items.end
strings (s ∷ ss) = Items.item (Json.string s) (strings ss)

abbrev trigger_fields : ScriptTrigger → Fields
trigger_fields t =
    Fields.field (lit "regex") (Json.string t.regex)
      (Fields.field (lit "reply") (Json.string t.reply) Fields.no_fields)

abbrev trigger_items : List ScriptTrigger → Items
trigger_items [] = Items.end
trigger_items (t ∷ ts) = Items.item (Json.object (trigger_fields t)) (trigger_items ts)

abbrev pub script_fields : Script → Fields
script_fields s = Fields.field (lit "opening_messages") (Json.array (strings s.opening_messages)) (
    Fields.field (lit "reply_messages") (Json.array (strings s.reply_messages)) (
      Fields.field (lit "fallback_message") (Json.string s.fallback_message) (
        Fields.field (lit "closing_message") (Json.string s.closing_message) (
          Fields.field (lit "triggers") (Json.array (trigger_items s.triggers)) Fields.no_fields))))

strings_of-strings : (ss : List Text) → strings_of (strings ss) ≡ ss
unfolding strings_of
strings_of-strings [] = refl
strings_of-strings (s ∷ ss) = ap (λ (ts : List Text). s ∷ ts) (strings_of-strings ss)

triggers_of-trigger_items : (ts : List ScriptTrigger) → triggers_of (trigger_items ts) ≡ ts
unfolding triggers_of get_field text_eq
triggers_of-trigger_items [] = refl
triggers_of-trigger_items (t ∷ ts) =
    ap (λ (us : List ScriptTrigger). t ∷ us) (triggers_of-trigger_items ts)

read_opening :
    (s : Script) → read_script_lines (script_fields s) (lit "opening_messages") ≡ s.opening_messages
unfolding read_script_lines get_field text_eq
read_opening s = strings_of-strings s.opening_messages

read_replies :
    (s : Script) → read_script_lines (script_fields s) (lit "reply_messages") ≡ s.reply_messages
unfolding read_script_lines get_field text_eq
read_replies s = strings_of-strings s.reply_messages

read_fallback :
    (s : Script)
    → read_script_string (script_fields s) (lit "fallback_message") ≡ s.fallback_message
unfolding read_script_string get_field text_eq
read_fallback s = refl

read_closing :
    (s : Script) → read_script_string (script_fields s) (lit "closing_message") ≡ s.closing_message
unfolding read_script_string get_field text_eq
read_closing s = refl

read_triggers : (s : Script) → read_script_triggers (script_fields s) ≡ s.triggers
unfolding read_script_triggers get_field text_eq
read_triggers s = triggers_of-trigger_items s.triggers

abbrev speaks : ScriptTrigger → Bool
speaks t = truthy (trim t.regex) && truthy (trim t.reply)

keep_twice : (ts : List ScriptTrigger) → keep speaks (keep speaks ts) ≡ keep speaks ts
keep_twice ts = keep_id speaks (keep speaks ts) (λ t i. ((in-keep speaks ts t).0 i).1)

Script-ext :
    (s t : Script)
    → s.opening_messages ≡ t.opening_messages
    → s.reply_messages ≡ t.reply_messages
    → s.fallback_message ≡ t.fallback_message
    → s.closing_message ≡ t.closing_message
    → s.triggers ≡ t.triggers
    → s ≡ t
Script-ext s t a b c d e = λ i. record {
  opening_messages = a i;
  reply_messages = b i;
  fallback_message = c i;
  closing_message = d i;
  triggers = e i;
}

-- The script that a form sends, read into the form again when the bot is edited, is sent unchanged.
pub script_of-form_of :
    (f : BotForm) (bot : BotDefinition)
    → bot.script_json ≡ script_fields (script_of f)
    → script_of (form_of bot) ≡ script_of f
unfolding form_of
script_of-form_of f bot e =
    let s = script_of f in
    let lines = λ (ls ms : List Text) (h : ls ≡ ms).
      ap (λ (ks : List Text). parse_conversation_lines (join_lines ks)) h in
    Script-ext (script_of (form_of bot)) s
      (lines _ _
          (ap (λ (j : Fields). read_script_lines j (lit "opening_messages")) e ∙ read_opening s)
        ∙ parse-join-parse f.bot_opening_messages)
      (lines _ _
          (ap (λ (j : Fields). read_script_lines j (lit "reply_messages")) e ∙ read_replies s)
        ∙ parse-join-parse f.bot_reply_messages)
      (ap trim
          (ap (λ (j : Fields). read_script_string j (lit "fallback_message")) e ∙ read_fallback s)
        ∙ trim_idem f.bot_fallback_message)
      (ap trim
          (ap (λ (j : Fields). read_script_string j (lit "closing_message")) e ∙ read_closing s)
        ∙ trim_idem f.bot_closing_message)
      (ap (keep speaks) (ap read_script_triggers e ∙ read_triggers s) ∙ keep_twice f.bot_triggers)
