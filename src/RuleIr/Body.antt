-- ===== src/RuleIr/Body.antt =====
-- DynamicBodyPrintPass of compiler/rircompilerpass.cpp, which takes the body of a rule apart into
-- functions, one for each place at which a task can wait, and what it uses of
-- compiler/codegenerator.cpp. A call returns the lines that it writes; `none` is a JASSERT or an
-- UNIMPLEMENTED. The macros of beginUserCode are left out.
pub mod Machine
pub mod Shapes
pub mod Labels
pub mod Linked
pub mod Quiet
pub mod Sim
pub mod Correct
pub mod Printable
pub mod Total
pub mod Whole
pub mod Scoped
mod Tests
use Prim.Native.String.{String}
use text.Mathlib.Text.{◌==◌ as str_eq}
use petabricks.Base.{
  ℕ, suc, ◌+◌, Bool, true, false, ◌&&◌, ◌||◌, Option, none, some, List, [], ◌∷◌, ◌++◌, ◌==◌,
  if◌then◌else◌,
}
use petabricks.RuleIr.{
  Expr, Exprs, Stmt, basic, raw, loop, cond, cond_else, switch, block, Block, stop, then_do,
  leaf_in,
}
use petabricks.RuleIr.Meaning.{Kind, breaks, continues, syncs, calls, spawns, plain, kind_of}

-- The name of a function: a base and the counter's value, written after each other.
pub record Name : Type 0 where
  pub base : String
  pub number : ℕ

unfoldable pub same_name : Name → Name → Bool
same_name m n = m.number == n.number && str_eq m.base n.base

-- A line of the output. `begin_if_continuation` tests `useContinuation()`; `return_task` returns a task
-- that calls the function, `return_hook` one that does so after `sync_hook`.
pub data Line : Type 0 where
  comment : String → Line
  stmt_text : Stmt → Line
  expr_text : Expr → Line
  begin_if_not : Expr → Line
  begin_if_continuation else_line end_if : Line
  return_call return_task return_hook : Name → Line
  return_void end_func : Line
  begin_func : Name → Line

-- What the generator and the pass keep. The last of a vector is the head of a list.
pub record Gen : Type 0 where
  pub counter : ℕ
  pub break_targets : List Name
  pub continue_targets : List Name

abbrev pub Writer : Type 0
Writer = Gen → Option (List Line × Gen)

-- The lines before those of a call.
abbrev after_lines : List Line → Option (List Line × Gen) → Option (List Line × Gen)
after_lines ls none = none
after_lines ls (some (ls', g)) = some (ls ++ ls', g)

abbrev goes_to : Option (List Line × Gen) → Writer → Option (List Line × Gen)
goes_to none k = none
goes_to (some (ls, g)) k = after_lines ls (k g)

infixr 5 ◌>>◌
abbrev pub ◌>>◌ : Writer → Writer → Writer
(m >> k) g = goes_to (m g) k

abbrev pub fail : Writer
fail g = none

abbrev pub skip : Writer
skip g = some ([], g)

abbrev pub write : Line → Writer
write l g = some (l ∷ [], g)

-- `nextContName`
abbrev next_cont_name : String → (Name → Writer) → Writer
next_cont_name base k g =
    k (record { base = base; number = g.counter }) (record g { counter = g.counter + 1 })

unfoldable pub continue_jump : Name → Writer
continue_jump n = write (return_call n)

unfoldable continue_label : Name → Writer
unfolding continue_jump
continue_label n = continue_jump n >> (write end_func >> write (begin_func n))

unfoldable continuation_point : Writer
continuation_point = next_cont_name "cont_" λ n.
    write begin_if_continuation
    >> (write (return_task n)
        >> (write else_line
            >> (write (return_call n)
                >> (write end_if >> (write end_func >> write (begin_func n))))))

unfoldable continuation_required : Writer
continuation_required =
    next_cont_name "cont_" λ n. write (return_hook n) >> (write end_func >> write (begin_func n))

-- A jump to the last of the targets.
unfoldable pub jump_last : List Name → Writer
unfolding continue_jump
jump_last [] g = none
jump_last (n ∷ ns) g = continue_jump n g

unfoldable pub jump_break : Writer
unfolding jump_last
jump_break g = jump_last g.break_targets g

unfoldable pub jump_continue : Writer
unfolding jump_last
jump_continue g = jump_last g.continue_targets g

unfoldable pub print_kind : Kind → Stmt → Writer
unfolding jump_break jump_continue continuation_required continuation_point
print_kind breaks s = write (comment "break;") >> jump_break
print_kind continues s = write (comment "continue;") >> jump_continue
print_kind syncs s = write (comment "SYNC();") >> continuation_required
print_kind calls s =
    write (stmt_text s) >> (write (comment "sync forced because of CALL") >> continuation_required)
print_kind spawns s = write (stmt_text s) >> continuation_point
print_kind plain s = write (stmt_text s)

unfoldable pub needs_expansion : Stmt → Bool
needs_expansion s =
    leaf_in s "SYNC"
    || (leaf_in s "CALL" || (leaf_in s "SPAWN" || (leaf_in s "break" || leaf_in s "continue")))

unfoldable pub expand_cond : Expr → Writer → Writer
unfolding continue_jump continue_label
expand_cond e then_part =
    write (comment "expanded if statement")
    >> next_cont_name "then_" λ jthen. next_cont_name "else_" λ _. next_cont_name "after_" λ jafter.
      write (begin_if_not e)
      >> (continue_jump jafter
          >> (write end_if >> (continue_label jthen >> (then_part >> continue_label jafter))))

unfoldable pub expand_cond_else : Expr → Writer → Writer → Writer
unfolding continue_jump continue_label
expand_cond_else e then_part else_part =
    write (comment "expanded if statement")
    >> next_cont_name "then_" λ jthen. next_cont_name "else_" λ jelse.
      next_cont_name "after_" λ jafter.
        write (begin_if_not e)
        >> (continue_jump jelse
            >> (write end_if
                >> (continue_label jthen
                    >> (then_part
                        >> (continue_jump jafter
                            >> (continue_label jelse >> (else_part >> continue_label jafter)))))))

unfoldable push_targets : Name → Name → Writer
push_targets jafter jinc g = some (
  [],
  record g {
    break_targets = jafter ∷ g.break_targets;
    continue_targets = jinc ∷ g.continue_targets;
  },
)

-- `pop_back`
unfoldable pub pop_last : List Name → List Name
pop_last [] = []
pop_last (n ∷ ns) = ns

unfoldable pop_targets : Writer
unfolding pop_last
pop_targets g = some (
  [],
  record g {
    break_targets = pop_last g.break_targets;
    continue_targets = pop_last g.continue_targets;
  },
)

unfoldable pub expand_loop : Expr → Expr → Expr → Writer → Writer
unfolding continue_jump continue_label push_targets pop_targets
expand_loop d t i body =
    write (comment "expanded loop statement")
    >> next_cont_name "loopbody_" λ jbody. next_cont_name "increment_" λ jinc.
      next_cont_name "after_" λ jafter.
        write (expr_text d)
        >> (continue_label jbody
            >> (write (begin_if_not t)
                >> (continue_jump jafter
                    >> (write end_if
                        >> (push_targets jafter jinc
                            >> (body
                                >> (pop_targets
                                    >> (continue_label jinc
                                        >> (write (expr_text i)
                                            >> (continue_jump jbody
                                                >> continue_label jafter))))))))))

-- The pass on a statement, on the block of one (`extractBlock`), and on a block.
unfoldable mutual
  unfolding print_kind needs_expansion expand_cond expand_cond_else expand_loop kind_of

  pub print_stmt : Stmt → Writer
  print_stmt (basic es) = print_kind (kind_of es) (basic es)
  print_stmt (raw t) = write (stmt_text (raw t))
  print_stmt (loop d t i s) =
      if needs_expansion (loop d t i s)
      then expand_loop d t i (print_extracted s)
      else write (stmt_text (loop d t i s))
  print_stmt (cond e s) =
      if needs_expansion (cond e s)
      then expand_cond e (print_extracted s)
      else write (stmt_text (cond e s))
  print_stmt (cond_else e s r) =
      if needs_expansion (cond_else e s r)
      then expand_cond_else e (print_extracted s) (print_extracted r)
      else write (stmt_text (cond_else e s r))
  print_stmt (switch e s) =
      if needs_expansion (switch e s) then fail else write (stmt_text (switch e s))
  print_stmt (block b) =
      if needs_expansion (block b)
      then write (comment "expanded block statement") >> print_block b
      else write (stmt_text (block b))

  pub print_extracted : Stmt → Writer
  print_extracted (block b) = print_block b
  print_extracted _ = fail

  pub print_block : Block → Writer
  print_block stop = skip
  print_block (then_do s b) = print_stmt s >> print_block b

-- The body of a rule, in generateDeclCode: the pass, and the end of the last function.
unfoldable pub print_body : Block → Writer
unfolding print_block
print_body b = print_block b >> (write return_void >> write end_func)
