-- ===== src/Simulation/Calls.antt =====
-- Arguments on the stack, and the code of a function body with its implicit return.
use baybayin_language.Base.{
  ℕ, suc, ◌+◌, String, ◌≡◌, refl, ap, ◌∙◌, subst, true, some, List, [], ◌∷◌, ◌++◌, length, arith,
  append_assoc, append-nil,
}
use baybayin_language.Ast.{Block, Exprs}
use baybayin_language.Bytecode.{Value, none_value, load_const, return_value}
use baybayin_language.VmCompiler.{emit, compile_function, count_args}
use baybayin_language.VmCompiler.Layout.{block_code}
use baybayin_language.VmCompiler.Patching.{visit_block-append}
use baybayin_language.Vm.{pop_args}
use baybayin_language.Vm.Operators.{Host}
use baybayin_language.Semantics.{ending_block, runs_off, Tables, Store, EvalArgs, a_none, a_next}
use baybayin_language.Simulation.Setup.{At, At-whole, body_code, closing}
use baybayin_language.Simulation.Endings.{body-wants_return}

-- The arguments pushed in order on top of `s`.
abbrev pub pushed : List Value → List Value → List Value
pushed [] s = s
pushed (v ∷ vs) s = pushed vs (v ∷ s)

pop_args-pushed_onto :
    (vs : List Value) (n m : ℕ) (acc s : List Value)
    → n ≡ length vs + m
    → pop_args n acc (pushed vs s) ≡ pop_args m (vs ++ acc) s
pop_args-pushed_onto [] n m acc s e = let e' : n ≡ m = omega arith in rw e'
pop_args-pushed_onto (v ∷ vs) n m acc s e =
    pop_args-pushed_onto vs n (suc m) acc (v ∷ s) (omega arith) ∙ popped
  where
    popped : pop_args (suc m) (vs ++ acc) (v ∷ s) ≡ pop_args m (v ∷ (vs ++ acc)) s
    popped = unfold pop_args in refl

-- A call takes back exactly the arguments that were pushed for it, in order.
pub pop_args-pushed :
    (vs s : List Value) (n : ℕ) → n ≡ length vs → pop_args n [] (pushed vs s) ≡ some (vs, s)
unfolding pop_args
pop_args-pushed vs s n e =
    pop_args-pushed_onto vs n 0 [] s (omega arith) ∙ ap (λ us. some (us, s)) (append-nil vs)

pub count_args-eq :
    {host : Host} {tb : Tables} {fields : List String} {es : Exprs} {σ σ' : Store} {vs : List Value}
    → EvalArgs host tb fields es σ vs σ'
    → count_args es ≡ length vs
unfolding count_args
count_args-eq a_none = refl
count_args-eq (a_next d ds) = ap suc (count_args-eq ds)

-- A function's code is its body's, and a return of None where the body runs off its end.
pub compile_function_lem :
    (fields : List String) (b : Block) → compile_function fields b ≡ body_code fields b
unfolding compile_function emit
compile_function_lem fields b =
    rw (visit_block-append fields b [], body-wants_return fields b)
      (ground (
        arith,
        append-nil (block_code fields 0 b),
        append_assoc (block_code fields 0 b) (load_const none_value ∷ []) (return_value ∷ []),
      ))

pub body-At : (fields : List String) (b : Block) → At (body_code fields b) 0 (block_code fields 0 b)
body-At fields b = At-whole [] (block_code fields 0 b) (closing (ending_block b))

pub end-At :
    (fields : List String) (b : Block)
    → runs_off (ending_block b) ≡ true
    → At
        (body_code fields b)
        (length (block_code fields 0 b))
        (load_const none_value ∷ return_value ∷ [])
end-At fields b h =
    let last = load_const none_value ∷ return_value ∷ [] in
    let whole : block_code fields 0 b ++ (last ++ []) ≡ body_code fields b = rw h in
    subst (λ c. At c (length (block_code fields 0 b)) last) whole
      (At-whole (block_code fields 0 b) last [])
