-- ===== src/Frontend/Cards/Markup.antt =====
-- The tags of a card are those of its template.
use irhub.Prelude.{
  ℕ, ◌+◌, Bool, true, false, List, [], ◌∷◌, Text, text, decimal, decimal-All, length, ◌==◌,
  if◌then◌else◌, ◌≡◌, refl, ◌∙◌, ap, arith, All,
}
use irhub.Js.{Value, num}
use irhub.Backend.Lowdb.Unique.{count, count-append}
use irhub.Backend.State.{Remote, Routine, Rule}
use irhub.Frontend.Rules.{condition_text}
use irhub.Frontend.Selects.{string_of}
use irhub.Frontend.Cards.{
  concat, escape_html, describe_steps, describe_action, routine_pieces, rule_pieces, routine_card,
  rule_card,
}
use irhub.Frontend.Cards.Escape.{is_markup, unescape-escape_html}

-- How many characters of a text can open a tag or end an attribute.
abbrev pub markup : Text → ℕ
markup s = count is_markup s

count_inert : (s : Text) → All (λ c. is_markup c ≡ false) s → markup s ≡ 0
count_inert [] h = refl
count_inert (c ∷ s) (e, h) = rw e (count_inert s h)

markup-escape_html : (s : Text) → markup (escape_html s) ≡ 0
markup-escape_html s = count_inert (escape_html s) (unescape-escape_html s []).1

markup-decimal : (n : ℕ) → markup (decimal n) ≡ 0
markup-decimal n =
    count_inert (decimal n) (decimal-All (λ c. is_markup c ≡ false) (λ d h. ground arith) n)

abbrev total : List Text → ℕ
total [] = 0
total (s ∷ more) = markup s + total more

markup-concat : (pieces : List Text) → markup (concat pieces) ≡ total pieces
markup-concat [] = refl
markup-concat (s ∷ more) =
    count-append is_markup s (concat more) ∙ ap (λ n. markup s + n) (markup-concat more)

plural : (b : Bool) → markup (if b then [] else text "s") ≡ 0
plural true = refl
plural false = refl

paused_or : (b : Bool) → markup (if b then text "enabled" else text "paused") ≡ 0
paused_or true = refl
paused_or false = refl

coloured :
    (b : Bool) → markup (if b then text "text-[var(--ok)]" else text "text-[var(--text-dim)]") ≡ 0
coloured true = refl
coloured false = refl

module _ (stringify : Value → Text) (remotes : List Remote) (routines : List Routine) where
  -- The cards of the two lists hold just the markup of their templates, whatever the names of remotes,
  -- buttons, routines and rules are: no name can open a tag or end an attribute. That the number of a
  -- rule prints without markup is a hypothesis.
  pub markup-cards :
      (r : Routine) (rule : Rule)
      → markup (stringify (num rule.threshold_cents)) ≡ 0
      → (markup (routine_card stringify remotes r) ≡ 12)
        × (markup (rule_card stringify remotes routines rule) ≡ 18)
  unfolding routine_card rule_card
  markup-cards r rule plain = (
    markup-concat (routine_pieces stringify remotes r)
        ∙ omega (
          arith,
          markup-escape_html r.name,
          markup-decimal (length r.steps),
          plural (length r.steps == 1),
          markup-escape_html (describe_steps stringify remotes r.steps),
        ),
    markup-concat (rule_pieces stringify remotes routines rule)
        ∙ omega (
          arith,
          markup-escape_html (string_of stringify rule.name),
          coloured rule.enabled,
          paused_or rule.enabled,
          markup-escape_html (condition_text rule.condition),
          plain,
          markup-escape_html (describe_action stringify remotes routines rule.action),
        ),
  )
