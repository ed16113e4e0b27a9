-- ===== src/Usage.antt =====
-- `UsageBudget` of walter/usage.py: the check before a model call. An amount of money is a whole
-- number of units that are small enough for every cost and ceiling; the check only compares them.
use walter.Prelude.{ℕ, ◌+◌, ◌≤◌, ◌<◌, Bool, false, ◌≡◌, refl, Option, none, some, leb, ltb, arith}
use walter.Kernel.Monad.{Error, Result, ok, bind, refuse}

pub record UsageBudget : Type 0 where
  pub max_calls : Option ℕ
  pub max_input_tokens : Option ℕ
  pub max_output_tokens : Option ℕ
  pub max_total_tokens : Option ℕ
  pub max_cost_usd : Option ℕ

-- What is used so far, and what the call asks for.
pub record Usage : Type 0 where
  pub calls_used : ℕ
  pub input_tokens_used : ℕ
  pub output_tokens_used : ℕ
  pub total_tokens_used : ℕ
  pub requested_input_tokens : Option ℕ
  pub requested_output_tokens : Option ℕ
  pub cost_used_usd : ℕ

-- `limit is not None and amount > limit`
abbrev pub is_over : (limit : Option ℕ) → (amount : ℕ) → Bool
is_over none amount = false
is_over (some limit) amount = ltb limit amount

-- `limit is not None and amount >= limit`
abbrev pub is_spent : (limit : Option ℕ) → (amount : ℕ) → Bool
is_spent none amount = false
is_spent (some limit) amount = leb limit amount

-- `requested or 0`
abbrev pub requested : Option ℕ → ℕ
requested none = 0
requested (some n) = n

unfoldable pub check : UsageBudget → Usage → Result (Unit {0})
check budget usage =
    let input = requested usage.requested_input_tokens in
    let output = requested usage.requested_output_tokens in
    bind
      (refuse (is_over budget.max_calls (usage.calls_used + 1))
        (Error.value_error "Model-call budget exhausted"))
      λ _.
        bind
          (refuse (is_over budget.max_input_tokens (usage.input_tokens_used + input))
            (Error.value_error "Input-token budget exhausted"))
          λ _.
            bind
              (refuse (is_over budget.max_output_tokens (usage.output_tokens_used + output))
                (Error.value_error "Output-token budget exhausted"))
              λ _.
                bind
                  (refuse
                    (is_over budget.max_total_tokens (usage.total_tokens_used + (input + output)))
                    (Error.value_error "Total-token budget exhausted"))
                  λ _.
                    refuse (is_spent budget.max_cost_usd usage.cost_used_usd)
                      (Error.value_error "Spend budget exhausted")

-- The amount is within the limit, where there is one.
abbrev pub IsUpTo : Option ℕ → ℕ → Type 0
IsUpTo none amount = Unit
IsUpTo (some limit) amount = amount ≤ limit

abbrev pub IsBelow : Option ℕ → ℕ → Type 0
IsBelow none amount = Unit
IsBelow (some limit) amount = amount < limit

-- After the call, if it takes what it asked for, every count is within its limit; and money is left.
pub record IsAffordable (budget : UsageBudget) (usage : Usage) : Type 0 where
  pub calls : IsUpTo budget.max_calls (usage.calls_used + 1)
  pub input :
      IsUpTo budget.max_input_tokens
        (usage.input_tokens_used + requested usage.requested_input_tokens)
  pub output :
      IsUpTo budget.max_output_tokens
        (usage.output_tokens_used + requested usage.requested_output_tokens)
  pub total : IsUpTo budget.max_total_tokens (
      usage.total_tokens_used
      + (requested usage.requested_input_tokens + requested usage.requested_output_tokens))
  pub money : IsBelow budget.max_cost_usd usage.cost_used_usd

not_over : (limit : Option ℕ) (n : ℕ) → is_over limit n ≡ false → IsUpTo limit n
not_over none n e = tt
not_over (some limit) n e = ground arith

over_not : (limit : Option ℕ) (n : ℕ) → IsUpTo limit n → is_over limit n ≡ false
over_not none n h = refl
over_not (some limit) n h = ground arith

not_spent : (limit : Option ℕ) (n : ℕ) → is_spent limit n ≡ false → IsBelow limit n
not_spent none n e = tt
not_spent (some limit) n e = ground arith

spent_not : (limit : Option ℕ) (n : ℕ) → IsBelow limit n → is_spent limit n ≡ false
spent_not none n h = refl
spent_not (some limit) n h = ground arith

five_passed :
    (a b c d e : Bool) (p q r s t : Error)
    → bind
        (refuse a p)
        (λ _. bind (refuse b q) (λ _. bind (refuse c r) (λ _. bind (refuse d s) (λ _. refuse e t))))
      ≡ ok tt
    → (a ≡ false) × (b ≡ false) × (c ≡ false) × (d ≡ false) × (e ≡ false)
five_passed a b c d e p q r s t h =
    (ground arith, ground arith, ground arith, ground arith, ground arith)

-- The check lets a call through exactly if it is affordable.
pub check-IsAffordable :
    (budget : UsageBudget) (usage : Usage)
    → (check budget usage ≡ ok tt → IsAffordable budget usage)
      × (IsAffordable budget usage → check budget usage ≡ ok tt)
unfolding check
check-IsAffordable budget usage = (
  λ e.
      let (a, b, c, d, f) = five_passed _ _ _ _ _ _ _ _ _ _ e in
      record {
        calls = not_over budget.max_calls _ a;
        input = not_over budget.max_input_tokens _ b;
        output = not_over budget.max_output_tokens _ c;
        total = not_over budget.max_total_tokens _ d;
        money = not_spent budget.max_cost_usd _ f;
      },
  λ h.
      rw
        (
          over_not budget.max_calls _ h.calls,
          over_not budget.max_input_tokens _ h.input,
          over_not budget.max_output_tokens _ h.output,
          over_not budget.max_total_tokens _ h.total,
          spent_not budget.max_cost_usd _ h.money,
        )
        refl,
)
