-- ===== src/Routing/Messages/Fit.antt =====
-- What the messages for Slack and Discord keep to, whatever they are about.
use mathlib.Core.List.{append-nil}
use changelogue.Prelude.{
  ℕ, suc, zero, ◌-◌, ◌≤◌, ◌≡◌, refl, ◌∙◌, Bool, true, false, ◌&&◌, not, Option, none, some, List,
  [], ◌∷◌, ◌++◌, Bytes, bytes, ltb, if◌then◌else◌, length, length-append, take, is_empty, All,
  Bool-cases, inl, inr, arith,
}
use changelogue.Models.{Notification}
use changelogue.Routing.Messages.{
  ReportFields, Formatter, join_with, cut_to, todo_text, todo_url, todo_acknowledge_url,
  todo_resolve_url, only_if, first_command, has_todo, is_urgent, urgency_of, reason_of, summary_of,
  has_origin, origin_of, changelog_of, parse_raw_body,
}
use changelogue.Routing.Messages.Slack.{
  SlackBlock, header, section, context, actions, SlackAttachment, reason_text, header_text,
  footer_block, view_links, todo_buttons, build_semantic_blocks, release_attachments, release_text,
  slack_message,
}
use changelogue.Routing.Messages.Discord.{
  described, report_parts, release_parts, build_semantic_embed, embed_of, embed_description_limit,
}

length-take_le {ℓ} : {A : Type ℓ} (n : ℕ) (xs : List A) → length (take n xs) ≤ n
length-take_le zero xs = omega arith
length-take_le (suc n) [] = omega arith
length-take_le (suc n) (x ∷ xs) = omega (arith, length-take_le n xs)

length-cut_to : (limit : ℕ) (s : Bytes) → 3 ≤ limit → length (cut_to limit s) ≤ limit
unfolding cut_to
length-cut_to limit s h = elim (Bool-cases (ltb limit (length s))) [
  | inl long ↦ rw (long) (
      omega (arith, length-append (take (limit - 3) s) (bytes "..."), length-take_le (limit - 3) s))
  | inr short ↦ rw (short) (ground arith)
]

-- Slack takes a header of 150 characters.
abbrev pub HeaderFits : SlackBlock → Type 0
HeaderFits (header text) = length text ≤ 150
HeaderFits (section text) = Unit
HeaderFits (context text) = Unit
HeaderFits (actions buttons) = Unit

abbrev buttons_in : SlackBlock → List (Bytes × Bytes)
buttons_in (header text) = []
buttons_in (section text) = []
buttons_in (context text) = []
buttons_in (actions buttons) = buttons

unfoldable pub all_buttons : List SlackBlock → List (Bytes × Bytes)
all_buttons [] = []
all_buttons (b ∷ bs) = buttons_in b ++ all_buttons bs

unfoldable pub attached_buttons : List SlackAttachment → List (Bytes × Bytes)
unfolding all_buttons
attached_buttons [] = []
attached_buttons (a ∷ rest) = all_buttons a.blocks ++ attached_buttons rest

-- The two URLs of a todo, where there is one.
abbrev pub due_buttons : Formatter → Notification → List (Bytes × Bytes)
due_buttons format msg =
    let url : Bytes → Bytes = λ action.
      msg.public_url
      ++ (bytes "/api/v1/todos/"
          ++ (todo_text format msg.todo_id ++ (b'/' ∷ (action ++ bytes "?redirect=true")))) in
    if has_todo format msg
    then (bytes "Acknowledge", url (bytes "acknowledge"))
      ∷ (bytes "Resolve", url (bytes "resolve"))
      ∷ []
    else []

-- Blocks without a header that is too long and without buttons.
abbrev Plain : List SlackBlock → Type 0
Plain blocks = All HeaderFits blocks × (all_buttons blocks ≡ [])

Plain-append :
    (xs ys : List SlackBlock) (buttons : List (Bytes × Bytes))
    → Plain xs
    → All HeaderFits ys × (all_buttons ys ≡ buttons)
    → All HeaderFits (xs ++ ys) × (all_buttons (xs ++ ys) ≡ buttons)
unfolding all_buttons
Plain-append [] ys buttons p q = q
Plain-append (header text ∷ xs) ys buttons ((h, hs), e) q =
    let rest = Plain-append xs ys buttons (hs, e) q in ((h, rest.0), rest.1)
Plain-append (section text ∷ xs) ys buttons ((h, hs), e) q =
    let rest = Plain-append xs ys buttons (hs, e) q in ((h, rest.0), rest.1)
Plain-append (context text ∷ xs) ys buttons ((h, hs), e) q =
    let rest = Plain-append xs ys buttons (hs, e) q in ((h, rest.0), rest.1)
Plain-append (actions [] ∷ xs) ys buttons ((h, hs), e) q =
    let rest = Plain-append xs ys buttons (hs, e) q in ((h, rest.0), rest.1)
Plain-append (actions (b ∷ bs) ∷ xs) ys buttons ((h, hs), e) q = cc

section_if-Plain : (b : Bool) (text : Bytes) → Plain (only_if b (section text))
unfolding all_buttons
section_if-Plain true text = ((tt, tt), refl)
section_if-Plain false text = (tt, refl)

first_command-Plain : (commands : List Bytes) → Plain (first_command section commands)
unfolding all_buttons first_command
first_command-Plain [] = (tt, refl)
first_command-Plain (command ∷ rest) = ((tt, tt), refl)

footer_block-Plain : (parts : List Bytes) → Plain (footer_block parts)
unfolding all_buttons
footer_block-Plain [] = (tt, refl)
footer_block-Plain (part ∷ parts) = ((tt, tt), refl)

todo_url-due :
    (action public_url todo : Bytes)
    → (not (is_empty todo) && not (is_empty public_url)) ≡ true
    → todo_url action public_url todo
      ≡ public_url
        ++ (bytes "/api/v1/todos/" ++ (todo ++ (b'/' ∷ (action ++ bytes "?redirect=true"))))
todo_url-due action [] [] h = cc
todo_url-due action [] (c ∷ todo) h = cc
todo_url-due action (c ∷ url) [] h = cc
todo_url-due action (c ∷ url) (d ∷ todo) h = refl

module _ (format : Formatter) (msg : Notification) where
  buttons-due :
      All HeaderFits (only_if (has_todo format msg) (todo_buttons format msg))
      × (all_buttons (only_if (has_todo format msg) (todo_buttons format msg))
          ≡ due_buttons format msg)
  unfolding all_buttons todo_acknowledge_url todo_resolve_url
  buttons-due = elim (Bool-cases (has_todo format msg)) [
    | inl due ↦
        let url = λ (action : Bytes).
          todo_url-due action msg.public_url (todo_text format msg.todo_id) due in
        rw (due) ((tt, tt), rw (url (bytes "acknowledge"), url (bytes "resolve")) refl)
    | inr not_due ↦ rw (not_due) (tt, refl)
  ]

  blocks-due :
      (title : Bytes) (report : ReportFields)
      → All HeaderFits (build_semantic_blocks format title report msg)
        × (all_buttons (build_semantic_blocks format title report msg) ≡ due_buttons format msg)
  unfolding build_semantic_blocks all_buttons
  blocks-due title report =
      Plain-append (header (cut_to 150 (header_text title (urgency_of report))) ∷ []) _ _
        ((length-cut_to 150 (header_text title (urgency_of report)) (omega arith), tt), refl)
        (Plain-append _ _ _
          (section_if-Plain (is_urgent (urgency_of report) && not (is_empty (reason_of report)))
            (reason_text (reason_of report)))
          (Plain-append _ _ _
            (section_if-Plain (not (is_empty (summary_of report))) (summary_of report))
            (Plain-append _ _ _ (first_command-Plain report.download_commands) (
              Plain-append _ _ _
                (footer_block-Plain
                  (only_if (has_origin msg) (origin_of msg) ++ view_links format msg))
                buttons-due))))

  attachments-due :
      (text : Bytes)
      → attached_buttons (release_attachments format msg text) ≡ due_buttons format msg
  unfolding release_attachments attached_buttons all_buttons todo_acknowledge_url todo_resolve_url
  attachments-due text = elim (Bool-cases (has_todo format msg)) [
    | inl due ↦
        let url = λ (action : Bytes).
          todo_url-due action msg.public_url (todo_text format msg.todo_id) due in
        rw (due) (rw (url (bytes "acknowledge"), url (bytes "resolve")) refl)
    | inr not_due ↦ rw (not_due) refl
  ]

  -- Whatever is reported or released, and whatever the title, the texts and the links: a header for Slack
  -- has at most 150 bytes; the buttons of a message for Slack are the two URLs that acknowledge and
  -- resolve its todo where it has a todo and the public URL is set, and none otherwise; and the
  -- description of a message for Discord has at most 4096 bytes.
  pub messages-fit :
      (report : Option ReportFields)
      → All HeaderFits (slack_message format msg report).blocks
        × (all_buttons (slack_message format msg report).blocks
              ++ attached_buttons (slack_message format msg report).attachments
            ≡ due_buttons format msg)
        × (length (embed_of format msg report).description ≤ embed_description_limit)
  unfolding all_buttons attached_buttons build_semantic_embed described
  messages-fit none = (
    tt,
    attachments-due (release_text format msg (changelog_of (parse_raw_body format msg.body))),
    length-cut_to 4096 (join_with (10 ∷ 10 ∷ []) (release_parts format msg)) (omega arith),
  )
  messages-fit (some report) = (
    (blocks-due msg.title report).0,
    append-nil (all_buttons (build_semantic_blocks format msg.title report msg))
        ∙ (blocks-due msg.title report).1,
    length-cut_to 4096 (join_with (10 ∷ 10 ∷ []) (report_parts format report msg)) (omega arith),
  )
