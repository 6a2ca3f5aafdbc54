-- ===== src/Connection/Gate.antt =====
-- Which transfers the check before each chunk lets through, whatever the user did before.
use lan_bridge.Base.{
  String, Bool, false, ◌||◌, ◌&&◌, not, Option, none, some, List, [], ◌∷◌, ◌≡◌, refl, ap, ◌∙◌, ◌==◌,
  string_eq, eq_iff, any, if◌then◌else◌, arith, Bool-eq, All,
}
use lan_bridge.Base.Sets.{HashSet, add, discard, contains, contains-add, contains-discard}
use lan_bridge.Connection.{
  Shared, transfer_key, directions_of, add_all, discard_all, cancel_transfer,
  cancel_active_transfer, defer_transfer, resume_deferred_transfer, clear_transfer_cancel,
  is_transfer_cancelled, is_transfer_deferred, ensure_transfer_not_cancelled,
  finish_transfer_progress_for_path,
}
use lan_bridge.Connection.Keys.{IsOneLine, transfer_key-inj}

-- The operations that change the two sets.
pub data Operation : Type 0 where
  cancel : String → String → String → Operation
  cancel_active : String → String → Option String → Operation
  defer : String → String → String → Operation
  resume : String → String → Option String → Operation
  clear_cancel : String → String → Option String → Operation

unfoldable pub operate : Operation → Shared → Shared
operate (cancel t p d) s = cancel_transfer t p d s
operate (cancel_active t p d) s = cancel_active_transfer t p d s
operate (defer t p d) s = defer_transfer t p d s
operate (resume t p d) s = resume_deferred_transfer t p d s
operate (clear_cancel t p d) s = clear_transfer_cancel t p d s

-- The newest operation comes first.
unfoldable pub operate_all : List Operation → Shared → Shared
unfolding operate
operate_all [] s = s
operate_all (o ∷ os) s = operate o (operate_all os s)

-- Whether the task, the path and the directions name the transfer.
abbrev pub names : String → String → List String → String × String × String → Bool
names t p ds (task, path, direction) = t == task && (p == path && any (λ d. d == direction) ds)

-- What the user has last said of a transfer.
abbrev pub is_cancelled_by : List Operation → String × String × String → Bool
is_cancelled_by [] x = false
is_cancelled_by (cancel t p d ∷ os) x = names t p (d ∷ []) x || is_cancelled_by os x
is_cancelled_by (cancel_active t p d ∷ os) x = names t p (directions_of d) x || is_cancelled_by os x
is_cancelled_by (defer t p d ∷ os) x = is_cancelled_by os x
is_cancelled_by (resume t p d ∷ os) x = not (names t p (directions_of d) x) && is_cancelled_by os x
is_cancelled_by (clear_cancel t p d ∷ os) x =
    not (names t p (directions_of d) x) && is_cancelled_by os x

abbrev pub is_deferred_by : List Operation → String × String × String → Bool
is_deferred_by [] x = false
is_deferred_by (cancel t p d ∷ os) x = names t p (d ∷ []) x || is_deferred_by os x
is_deferred_by (cancel_active t p d ∷ os) x = is_deferred_by os x
is_deferred_by (defer t p d ∷ os) x = names t p (d ∷ []) x || is_deferred_by os x
is_deferred_by (resume t p d ∷ os) x = not (names t p (directions_of d) x) && is_deferred_by os x
is_deferred_by (clear_cancel t p d ∷ os) x = is_deferred_by os x

abbrev pub IsPlain : Operation → Type 0
IsPlain (cancel t p d) = IsOneLine t × IsOneLine p
IsPlain (cancel_active t p d) = IsOneLine t × IsOneLine p
IsPlain (defer t p d) = IsOneLine t × IsOneLine p
IsPlain (resume t p d) = IsOneLine t × IsOneLine p
IsPlain (clear_cancel t p d) = IsOneLine t × IsOneLine p

-- A task and a path without newlines, of an operation and of the transfer that is asked for.
module _ (t p task path direction : String) (ht : IsOneLine t) (hp : IsOneLine p)
    (htask : IsOneLine task) (hpath : IsOneLine path) where
  key_test :
      (d : String)
      → (transfer_key t p d == transfer_key task path direction)
        ≡ (t == task && (p == path && d == direction))
  key_test d =
      Bool-eq (transfer_key t p d == transfer_key task path direction) _
        (λ same.
          let (a, b, c) =
            transfer_key-inj t p d task path direction ht hp htask hpath
              ((eq_iff (transfer_key t p d) (transfer_key task path direction)).0 same) in
          ground (arith, a, b, c, eq_iff t task, eq_iff p path, eq_iff d direction))
        (λ same.
          let a : t ≡ task = ground (arith, eq_iff t task) in
          let b : p ≡ path = ground (arith, eq_iff p path) in
          let c : d ≡ direction = ground (arith, eq_iff d direction) in
          (eq_iff (transfer_key t p d) (transfer_key task path direction)).1 (rw (a, b, c) refl))

  contains-add_all :
      (ds : List String) (set : HashSet String)
      → contains (transfer_key task path direction) (add_all t p ds set)
        ≡ (names t p ds (task, path, direction) || contains (transfer_key task path direction) set)
  contains-add_all [] set = ground arith
  contains-add_all (d ∷ ds) set = ground (
    arith,
    contains-add_all ds (add (transfer_key t p d) set),
    key_test d,
    contains-add (transfer_key t p d) (transfer_key task path direction) set,
  )

  contains-discard_all :
      (ds : List String) (set : HashSet String)
      → contains (transfer_key task path direction) (discard_all t p ds set) ≡ (
          not (names t p ds (task, path, direction))
          && contains (transfer_key task path direction) set)
  contains-discard_all [] set = ground arith
  contains-discard_all (d ∷ ds) set = ground (
    arith,
    contains-discard_all ds (discard (transfer_key t p d) set),
    key_test d,
    contains-discard (transfer_key t p d) (transfer_key task path direction) set,
  )

run_sets :
    (os : List Operation) (s : Shared) (task path direction : String)
    → IsOneLine task
    → IsOneLine path
    → All IsPlain os
    → s.cancelled ≡ []
    → s.deferred ≡ []
    → (contains (transfer_key task path direction) (operate_all os s).cancelled
        ≡ is_cancelled_by os (task, path, direction))
      × (contains (transfer_key task path direction) (operate_all os s).deferred
          ≡ is_deferred_by os (task, path, direction))
unfolding operate_all operate cancel_transfer cancel_active_transfer defer_transfer
    resume_deferred_transfer clear_transfer_cancel finish_transfer_progress_for_path
run_sets [] s task path direction ht hp h c d = (rw c refl, rw d refl)
run_sets (cancel t p e ∷ os) s task path direction ht hp h c d =
    let (a, b) = run_sets os s task path direction ht hp h.1 c d in
    (
      contains-add_all t p task path direction h.0.0 h.0.1 ht hp (e ∷ [])
            (operate_all os s).cancelled
          ∙ ap (λ x. names t p (e ∷ []) (task, path, direction) || x) a,
      contains-add_all t p task path direction h.0.0 h.0.1 ht hp (e ∷ [])
            (operate_all os s).deferred
          ∙ ap (λ x. names t p (e ∷ []) (task, path, direction) || x) b,
    )
run_sets (cancel_active t p e ∷ os) s task path direction ht hp h c d =
    let (a, b) = run_sets os s task path direction ht hp h.1 c d in
    (
      contains-add_all t p task path direction h.0.0 h.0.1 ht hp (directions_of e)
            (operate_all os s).cancelled
          ∙ ap (λ x. names t p (directions_of e) (task, path, direction) || x) a,
      b,
    )
run_sets (defer t p e ∷ os) s task path direction ht hp h c d =
    let (a, b) = run_sets os s task path direction ht hp h.1 c d in
    (
      a,
      contains-add_all t p task path direction h.0.0 h.0.1 ht hp (e ∷ [])
            (operate_all os s).deferred
          ∙ ap (λ x. names t p (e ∷ []) (task, path, direction) || x) b,
    )
run_sets (resume t p e ∷ os) s task path direction ht hp h c d =
    let (a, b) = run_sets os s task path direction ht hp h.1 c d in
    (
      contains-discard_all t p task path direction h.0.0 h.0.1 ht hp (directions_of e)
            (operate_all os s).cancelled
          ∙ ap (λ x. not (names t p (directions_of e) (task, path, direction)) && x) a,
      contains-discard_all t p task path direction h.0.0 h.0.1 ht hp (directions_of e)
            (operate_all os s).deferred
          ∙ ap (λ x. not (names t p (directions_of e) (task, path, direction)) && x) b,
    )
run_sets (clear_cancel t p e ∷ os) s task path direction ht hp h c d =
    let (a, b) = run_sets os s task path direction ht hp h.1 c d in
    (
      contains-discard_all t p task path direction h.0.0 h.0.1 ht hp (directions_of e)
            (operate_all os s).cancelled
          ∙ ap (λ x. not (names t p (directions_of e) (task, path, direction)) && x) a,
      b,
    )

-- After any operations on tasks and paths without newlines, the check of a transfer fails as
-- cancelled exactly when the last operation that could change that cancelled it, and otherwise fails
-- as put off exactly when the last such operation put it off. One operation without a direction is
-- for the four known directions.
pub ensure_transfer_not_cancelled-refines :
    (os : List Operation) (s : Shared) (task path direction : String)
    → IsOneLine task
    → IsOneLine path
    → All IsPlain os
    → s.cancelled ≡ []
    → s.deferred ≡ []
    → ensure_transfer_not_cancelled task path direction (operate_all os s) ≡ (
        if is_cancelled_by os (task, path, direction)
        then some "transfer cancelled"
        else if is_deferred_by os (task, path, direction)
        then some "transfer deferred by user"
        else none)
unfolding ensure_transfer_not_cancelled is_transfer_cancelled is_transfer_deferred
ensure_transfer_not_cancelled-refines os s task path direction ht hp h c d =
    let (a, b) = run_sets os s task path direction ht hp h c d in rw (a, b) refl
