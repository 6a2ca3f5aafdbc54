-- ===== src/Connection/Keys.antt =====
-- The keys of the transfer tables: task, path and direction with newlines between them.
use lan_bridge.Base.{ℕ, suc, String, ◌<>◌, false, some, [], ◌∷◌, ◌≡◌, refl, sym, ap, ◌∙◌}
use lan_bridge.Base.Text.{splitn, split_once-append, contains_char, split_once}
use mathlib.Core.Option.{some-injective}
use text.Mathlib.TextLemmas.{nil-append, cons-append}
use lan_bridge.Connection.{transfer_key, transfer_of_key}

-- No newline in the text.
abbrev pub IsOneLine : String → Type 0
IsOneLine s = contains_char b'\n' s ≡ false

at_newline : (a b : String) → IsOneLine a → split_once b'\n' (a <> ("\n" <> b)) ≡ some (a, b)
at_newline a b h = rw (cons-append, nil-append) (split_once-append a b "\n" h)

next_piece :
    (n : ℕ) (a b s : String)
    → split_once b'\n' s ≡ some (a, b)
    → splitn (suc (suc n)) b'\n' s ≡ a ∷ splitn (suc n) b'\n' b
unfolding splitn
next_piece n a b s h = rw (h, splitn) refl

pieces-transfer_key :
    (task_id path direction : String)
    → IsOneLine task_id
    → IsOneLine path
    → splitn 3 b'\n' (transfer_key task_id path direction) ≡ task_id ∷ path ∷ direction ∷ []
unfolding transfer_key splitn
pieces-transfer_key task_id path direction t p =
    next_piece 1 task_id (path <> ("\n" <> direction)) (transfer_key task_id path direction)
      (at_newline task_id (path <> ("\n" <> direction)) t)
    ∙ ap (λ rest. task_id ∷ rest)
        (next_piece 0 path direction (path <> ("\n" <> direction)) (at_newline path direction p))

-- The key of a transfer is read back as its task, path and direction, if neither the task nor the
-- path has a newline.
pub transfer_of_key-transfer_key :
    (task_id path direction : String)
    → IsOneLine task_id
    → IsOneLine path
    → transfer_of_key (transfer_key task_id path direction) ≡ some (task_id, path, direction)
unfolding transfer_of_key
transfer_of_key-transfer_key task_id path direction t p =
    rw (pieces-transfer_key task_id path direction t p) refl

-- Different transfers have different keys.
pub transfer_key-inj :
    (t p d t' p' d' : String)
    → IsOneLine t
    → IsOneLine p
    → IsOneLine t'
    → IsOneLine p'
    → transfer_key t p d ≡ transfer_key t' p' d'
    → (t ≡ t') × (p ≡ p') × (d ≡ d')
transfer_key-inj t p d t' p' d' ht hp ht' hp' same =
    let both : (t, p, d) ≡ (t', p', d') =
      some-injective (t, p, d) (t', p', d')
        (sym (transfer_of_key-transfer_key t p d ht hp)
          ∙ ap transfer_of_key same
          ∙ transfer_of_key-transfer_key t' p' d' ht' hp') in
    (ap (λ x. x.0) both, ap (λ x. x.1) both, ap (λ x. x.2) both)
