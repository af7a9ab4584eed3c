-- ===== src/Tests/Threads.antt =====
-- Runs of the threads of src/lib.rs, `run`, over a small tree.
use minifind.Base.{
  length, arith, ltb, ◌≤◌, ◌+◌, ◌*◌, ℕ, ◌≡◌, refl, Bool, true, false, Option, none, some, List, [],
  ◌∷◌, ◌++◌, ok,
}
use minifind.Base.Int.{pos}
use minifind.Base.Text.{Text, codes}
use minifind.FileType
use minifind.FileType.{FileType, Probe}
use minifind.Args.Types.{Args}
use minifind.Args.Types
use minifind.Pipeline.Patterns.{Compiler, build_glob_set, build_regex_set}
use minifind.Walk.System.Once
use minifind.Walk.System.Once.{visited, entered, WalkedAll, none_left, one_more}
use minifind.Meta.Predicates
use minifind.Meta.Predicates.{no_predicates}
use minifind.Walk.{Entry, WalkCtx}
use minifind.Walk.Process.{contains, descends_into, opened}
use minifind.Walk.Process.Actions.{actions}
use minifind.Walk.System.{
  System, Worker, idle, looking, stopped, Move, look, take, find_none, see_done, count, push,
  finish, calls, root_tasks, init,
}
use minifind.Pipeline.Batch.{drop}
use minifind.Pipeline.Output.{no_output, print_batch}
use minifind.Pipeline.Visitor.{Filters, Visit, visit}
use minifind.Pipeline.Worker.{new_visit}
use minifind.Run.{Plan, plan_of, run}
use minifind.Run.Channel.{Channel, IsChannel}
use minifind.Run.Threads.{
  receiving, walking, joining, Handle, handle, Program, Run, here, next, work, call, leave, receive,
  write, drain, ended, done, visit_sends, drop_sends, may_send, end_scope, join, start, worked,
  walk_of,
}
use minifind.Run.Threads.Plans.{ctx_of}
use minifind.Run.Threads.Prints.{PrintsWanted, run-PrintsSome, run-PrintsWanted}
use minifind.Pipeline.Worker.Partial.{PrintsSome}
use minifind.Run.Threads.Settle.{Returns}
use minifind.Run.Threads.Returns.{can_return, returns-PrintsWanted}
use minifind.Run.Threads.Tally.{printer_of}
use minifind.Run.Threads.Overrun.{passing-emitted}
use minifind.Pipeline.Worker.Sending.{passing}
use minifind.Tests.Walk.{tree, arguments, dir_entry, root_seen, dir_seen}

-- A channel that is the list of its batches.
abbrev Batches : Type 0
Batches = List (List Entry) × Bool

abbrev send : List Entry → Batches → Option Batches
send b (bs, true) = some (bs ++ (b ∷ []), true)
send b (bs, false) = none

-- It has room for four batches.
abbrev accepts : Bool → Batches → Bool
accepts waits (bs, true) = ltb (length bs) 4
accepts waits (bs, false) = true

abbrev recv : Batches → Option (List Entry × Batches)
recv ([], o) = none
recv (b ∷ bs, o) = some (b, (bs, o))

abbrev pub list_channel : Channel Batches
list_channel = record {
  bounded = λ n. ([], true);
  accepts = accepts;
  send = send;
  recv = recv;
  hang_up = λ c. ([], false);
  held = λ c. c.0;
  is_open = λ c. c.1;
}

send_open :
    (b : List Entry) (c : Batches)
    → c.1 ≡ true
    → (c' : Batches) × (send b c ≡ some c') × (c'.0 ≡ c.0 ++ (b ∷ [])) × (c'.1 ≡ true)
send_open b (bs, true) h = (_, refl, refl, refl)
send_open b (bs, false) h = cc

accepts_closed : (c : Batches) (waits : Bool) → c.1 ≡ false → accepts waits c ≡ true
accepts_closed (bs, true) waits h = cc
accepts_closed (bs, false) waits h = refl

accepts_empty : (c : Batches) → c.0 ≡ [] → accepts true c ≡ true
accepts_empty ([], true) h = refl
accepts_empty (b ∷ bs, true) h = cc
accepts_empty (bs, false) h = refl

send_closed : (b : List Entry) (c : Batches) → c.1 ≡ false → send b c ≡ none
send_closed b (bs, true) h = cc
send_closed b (bs, false) h = refl

recv_nil : (c : Batches) → c.0 ≡ [] → recv c ≡ none
recv_nil ([], o) h = refl
recv_nil (b ∷ bs, o) h = cc

recv_cons :
    (c : Batches) (b : List Entry) (bs : List (List Entry))
    → c.0 ≡ b ∷ bs
    → (c' : Batches) × (recv c ≡ some (b, c')) × (c'.0 ≡ bs) × (c'.1 ≡ c.1)
recv_cons ([], o) b bs h = cc
recv_cons (x ∷ xs, o) b bs h = ((xs, o), cc h, cc h, refl)

list_channel-IsChannel : IsChannel list_channel
list_channel-IsChannel = record {
  bounded_held = λ n. refl;
  bounded_open = λ n. refl;
  send_open = send_open;
  accepts_closed = accepts_closed;
  accepts_empty = accepts_empty;
  send_closed = send_closed;
  recv_nil = recv_nil;
  recv_cons = recv_cons;
  hang_up_closed = λ c. refl;
}

-- `--min-depth 1 --type d`, with at most nine results.
abbrev args : Args
args = record arguments {
  file_type = Types.directory ∷ [];
  min_depth = some 1;
  max_results = some 9;
}

-- No pattern is given.
abbrev pub compiler : Compiler
compiler = record {
  Glob = Text;
  build_glob = λ p case_insensitive. some p;
  build_globs = λ gs. some (λ text. false);
  build_regexes = λ ps case_insensitive. some (λ text. false);
}

abbrev filters : Filters
filters = record {
  min_depth = 1;
  file_type = FileType.new (Types.directory ∷ []);
  glob_name = none;
  regex_name = none;
  glob_path = none;
  glob_lname = none;
  predicates = no_predicates;
  now = pos 0;
  access = 0;
  exclude = none;
}

abbrev plan : Plan
plan = plan_of (λ ps. ps) args filters

planned : run compiler (λ signal. true) (λ ps. ps) args (pos 0) ≡ ok plan
unfolding run build_glob_set build_regex_set
planned = refl

abbrev probe : Probe
probe = record { read_dir = λ path. none; len = λ path. none }

abbrev nobody : ℕ → Bool
nobody id = false

abbrev ctx : WalkCtx ℕ
ctx = ctx_of args none plan

walked : WalkedAll tree ctx (root_tasks tree ctx plan.roots) (root_seen ∷ dir_seen ∷ [])
unfolding root_tasks actions opened contains descends_into
walked = one_more (visited (visited (entered Once.done Once.done refl))) none_left refl

abbrev begin : Program ℕ Batches
begin = start tree probe nobody nobody list_channel ctx plan

abbrev Runs : Program ℕ Batches → Type 0
Runs m = Run tree probe nobody nobody list_channel ctx plan begin m

-- The only worker moves.
solo :
    (m : Program ℕ Batches) (w w' : Worker ℕ) (v : Visit Handle) (t : System ℕ)
    → m.seats ≡ record { at = w; visitor = some v } ∷ []
    → Runs m
    → Move tree ctx (walk_of m) t w w'
    → calls w ≡ false
    → Runs (
        worked tree probe nobody nobody list_channel ctx plan m t
          (record { at = w'; visitor = some v } ∷ []))
solo m w w' v t p r mv k = next r (work [] [] (record { at = w; visitor = some v }) t w' p mv k)

abbrev fresh : Visit Handle
fresh = new_visit handle

-- The worker has gone, and the channel holds its batch.
abbrev flushed : Program ℕ Batches
flushed = record {
  queue = [];
  pending = 0;
  quit = false;
  emitted = dir_seen ∷ root_seen ∷ [];
  seats = record { at = stopped; visitor = none } ∷ [];
  chan = ((dir_entry ∷ []) ∷ [], true);
  output = receiving no_output;
  shutdown = false;
  main = walking;
}

-- The output thread has written it, and has ended.
abbrev drained : Program ℕ Batches
drained = record flushed {
  chan = ([], false);
  output = ended (record { out = codes "r/d\n"; written = 1 });
  main = joining;
}

-- The state in which `run` returns.
abbrev finished : Program ℕ Batches
finished = record drained { main = done }

-- The worker's run.
worker_run : Runs flushed
unfolding start init root_tasks actions opened contains descends_into visit FileType.new
    FileType.ignore_filetype Predicates.is_active solo drop print_batch visit_sends drop_sends
    may_send
worker_run =
    let r0 : Runs begin = here in
    let r1 = solo _ idle looking fresh _ refl r0 (look refl refl) refl in
    let r2 = solo _ looking _ fresh _ refl r1 (take [] [] _ refl refl) refl in
    let r3 = next r2 (call [] [] fresh _ _ _ false refl (λ b. cc b) refl) in
    let r4 = next r3 (call [] [] fresh _ _ _ false refl (λ b. cc b) refl) in
    let r5 = solo _ _ _ _ _ refl r4 (count _ [] refl) refl in
    let r6 = solo _ _ _ _ _ refl r5 (push _ [] refl) refl in
    let r7 = solo _ _ _ _ _ refl r6 (finish refl) refl in
    let r8 = solo _ idle looking _ _ refl r7 (look refl refl) refl in
    let r9 = solo _ looking _ _ _ refl r8 (take [] [] _ refl refl) refl in
    let r10 = solo _ _ _ _ _ refl r9 (finish refl) refl in
    let r11 = solo _ idle looking _ _ refl r10 (look refl refl) refl in
    let r12 = solo _ looking _ _ _ refl r11 (find_none refl) refl in
    let r13 = solo _ _ stopped _ _ refl r12 (see_done refl refl) refl in
    next r13 (leave [] [] _ refl refl)

-- The output thread's run after it.
output_run : Runs drained
unfolding print_batch
output_run =
    let r1 : Runs flushed = worker_run in
    let r2 = next r1 (end_scope refl refl) in
    let r3 = next r2 (receive _ (dir_entry ∷ []) ([], true) refl refl) in
    let r4 = next r3 (write _ _ refl) in next r4 (drain _ refl refl refl refl)

whole_run : Runs finished
whole_run = next output_run (join _ refl refl)

run-PrintsWanted_example :
    PrintsWanted tree probe filters nobody nobody
      (some 9)
      b'\n'
      (codes "r/d\n")
      (root_seen ∷ dir_seen ∷ [])
run-PrintsWanted_example =
    run-PrintsWanted tree probe nobody nobody list_channel list_channel-IsChannel compiler
      (λ signal. true) (λ ps. ps) args (pos 0) none planned walked whole_run refl refl

run-PrintsSome_example :
    PrintsSome tree probe filters nobody nobody b'\n' (codes "r/d\n") (root_seen ∷ dir_seen ∷ [])
run-PrintsSome_example =
    run-PrintsSome tree probe nobody nobody list_channel list_channel-IsChannel compiler
      (λ signal. true) (λ ps. ps) args (pos 0) none planned walked whole_run

can_return_example :
    Returns tree probe nobody nobody list_channel list_channel-IsChannel ctx plan begin
can_return_example =
    can_return tree probe nobody nobody list_channel list_channel-IsChannel compiler
      (λ signal. true) (λ ps. ps) args (pos 0) none (omega arith) planned walked here

returns-PrintsWanted_example :
    (u : Program ℕ Batches) × Run tree probe nobody nobody list_channel ctx plan flushed u
    × (u.main ≡ done)
    × PrintsWanted tree probe filters nobody nobody
        (some 9)
        b'\n'
        (printer_of u.output).out
        (root_seen ∷ dir_seen ∷ [])
returns-PrintsWanted_example =
    returns-PrintsWanted tree probe nobody nobody list_channel list_channel-IsChannel compiler
      (λ signal. true) (λ ps. ps) args (pos 0) none planned walked worker_run refl

passing-emitted_example :
    length (passing tree probe filters nobody nobody (dir_seen ∷ root_seen ∷ []))
    ≤ length (passing tree probe filters nobody nobody (dir_seen ∷ root_seen ∷ [])) + 256 * 1
passing-emitted_example =
    passing-emitted tree probe nobody nobody list_channel list_channel-IsChannel compiler
      (λ signal. true) (λ ps. ps) args (pos 0) none {m = drained} {u = finished} planned output_run
      refl (next here (join _ refl refl))
