-- ===== src/Runner.antt =====
-- src/runners/rlibstore/rlibstore.go: the program that runs commands on a libstore. What it prints is
-- a list of lines; `none` stands for its usage text and an exit.
use simple_twitter.Common.{
  ℕ, zero, suc, ◌+◌, ◌≡◌, refl, ◌∙◌, Bool, true, false, not, ◌&&◌, Option, none, some, List, [],
  ◌∷◌, ◌++◌, map, length, get_elem?, ltb, if◌then◌else◌, arith,
}
use simple_twitter.Common.Order.{Bytes, bytes_eqb, bytes_eqb_iff, bytes_order}
use simple_twitter.Text.{codes}
use simple_twitter.Slices.{has}
use simple_twitter.Slices.Sets.{has-insert_sorted}
use simple_twitter.Libstore.State.{LeaseMode, never, normal, always}
use simple_twitter.StwServer.Store.{StoreOps, Contents, list_of, appended, IsStore}

pub data Line : Type 0 where
  shown : Bytes → Line
  ok_line error_line : Line

-- The commands, with the number of their arguments.
pub data Command : Type 0 where
  put_command get_command append_command remove_command get_list_command : Command

unfoldable pub command_of : Bytes → Option Command
command_of cmd =
    if bytes_eqb cmd (codes "p")
    then some put_command
    else if bytes_eqb cmd (codes "g")
    then some get_command
    else if bytes_eqb cmd (codes "la")
    then some append_command
    else if bytes_eqb cmd (codes "lr")
    then some remove_command
    else if bytes_eqb cmd (codes "lg")
    then some get_list_command
    else none

abbrev pub num_args : Command → ℕ
num_args put_command = 2
num_args get_command = 1
num_args append_command = 2
num_args remove_command = 2
num_args get_list_command = 1

-- `flag.Arg(i)`, which is the empty string where there is no such argument.
abbrev pub arg : List Bytes → ℕ → Bytes
arg args i = elim (get_elem? args i) [ none ↦ [] | some a ↦ a ]

-- The mode of the libstore. There is an address for callbacks just if leases are handled.
abbrev pub lease_mode : (handle_leases force_lease : Bool) → LeaseMode
lease_mode handle_leases force_lease =
    if handle_leases && force_lease then always else if not handle_leases then never else normal

abbrev pub result_line : Bool → Line
result_line done_well = if done_well then ok_line else error_line

module _ {S : Type 0} (ops : StoreOps S) where
  unfoldable pub run_command : Command → Bytes → Bytes → S → List Line × S
  run_command get_command key value s =
      let (found, s') = ops.get key s in
      (elim found [ none ↦ error_line ∷ [] | some v ↦ shown v ∷ [] ], s')
  run_command get_list_command key value s =
      let (found, s') = ops.get_list key s in
      (elim found [ none ↦ error_line ∷ [] | some vs ↦ map shown vs ], s')
  run_command put_command key value s =
      let (done_well, s') = ops.put key value s in (result_line done_well ∷ [], s')
  run_command append_command key value s =
      let (done_well, s') = ops.append_to_list key value s in (result_line done_well ∷ [], s')
  run_command remove_command key value s =
      let (done_well, s') = ops.remove_from_list key value s in (result_line done_well ∷ [], s')

  -- The loop over `numTimes`.
  unfoldable pub run_times : ℕ → Command → Bytes → Bytes → S → List Line × S
  unfolding run_command
  run_times zero command key value s = ([], s)
  run_times (suc n) command key value s =
      let (lines, s') = run_command command key value s in
      let (rest, s'') = run_times n command key value s' in (lines ++ rest, s'')

  -- `main`, once there is a libstore.
  unfoldable pub run_main : ℕ → List Bytes → S → Option (List Line) × S
  unfolding command_of run_times
  run_main n args s = if ltb (length args) 2 then (none, s) else elim (command_of (arg args 0)) [
    | none ↦ (none, s)
    | some command ↦
        if ltb (length args) (num_args command + 1)
        then (none, s)
        else let (lines, s') = run_times n command (arg args 1) (arg args 2) s in (some lines, s')
  ]

abbrev pub times : ℕ → Line → List Line
times zero line = []
times (suc n) line = line ∷ times n line

module _ {S : Type 0} (ops : StoreOps S) (contents : S → Contents)
    (store : IsStore ops contents) where
  append_again :
      (key value : Bytes) (s : S)
      → has value (list_of (contents s key)) ≡ true
      → let (done_well, s') = ops.append_to_list key value s in
        (done_well ≡ false) × ((k : Bytes) → contents s' k ≡ contents s k)
  append_again key value s h = (
    rw (store.append_reports key value s) (rw h refl),
    λ k. rw (store.appends key value s k) (rw h refl),
  )

  -- A value that is in the list of the key cannot be appended again.
  run_times-again :
      (n : ℕ) (key value : Bytes) (s : S)
      → has value (list_of (contents s key)) ≡ true
      → let (lines, s') = run_times ops n append_command key value s in
        (lines ≡ times n error_line) × ((k : Bytes) → contents s' k ≡ contents s k)
  unfolding run_times run_command
  run_times-again zero key value s h = (refl, λ k. refl)
  run_times-again (suc n) key value s h =
      let s1 = (ops.append_to_list key value s).1 in
      let (failed, same) = append_again key value s h in
      let (lines, after) = run_times-again n key value s1 (rw (same key) h) in
      (rw (failed, lines) refl, λ k. after k ∙ same k)

  -- Once a value was appended it is in the list.
  append-has :
      (key value : Bytes) (s : S)
      → has value (list_of (contents (ops.append_to_list key value s).1 key)) ≡ true
  append-has key value s = ground (
    arith,
    store.appends key value s key,
    bytes_eqb_iff key key,
    bytes_eqb_iff value value,
    has-insert_sorted value value (list_of (contents s key)),
  )

  -- Over a store that does what its operations promise, the program with `la key value`, run any
  -- number of times but none, prints for the first time OK if the value is not in the list of the
  -- key and an error if it is, and an error for every other time; what is stored afterwards is what
  -- one AppendToList makes of it.
  pub run_main-appends :
      (n : ℕ) (key value : Bytes) (s : S)
      → let (lines, s') = run_main ops (suc n) (codes "la" ∷ key ∷ value ∷ []) s in
        (lines
          ≡ some (result_line (not (has value (list_of (contents s key)))) ∷ times n error_line))
        × ((k : Bytes) → contents s' k ≡ appended key value (contents s) k)
  unfolding run_main command_of run_times run_command bytes_eqb
  run_main-appends n key value s =
      let s1 = (ops.append_to_list key value s).1 in
      let (lines, after) = run_times-again n key value s1 (append-has key value s) in
      (
        rw (lines, store.append_reports key value s) refl,
        λ k. after k ∙ store.appends key value s k,
      )
