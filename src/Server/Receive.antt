-- ===== src/Server/Receive.antt =====
-- What recv_wrapper answers.
use mysql_governor.Base.{
  ℕ, zero, suc, ◌+◌, ◌≡◌, refl, ap, ◌∙◌, Bool, true, false, some, arith, ◌==◌, if◌then◌else◌,
}
use mysql_governor.Server.{Received, blocks, recv_loop, recv_wrapper}

-- The first answer among `n` calls that does not block; without one, that of the last call.
unfoldable pub first_answer : (ℕ → Received) → (n i : ℕ) → Received
first_answer attempts zero i = attempts i
first_answer attempts (suc n) i =
    let rest = first_answer attempts n (i + 1) in if blocks (attempts i) then rest else attempts i

recv_loop-first_answer :
    (attempts : ℕ → Received) (n trys i : ℕ)
    → trys + n ≡ 99
    → recv_loop attempts (suc n) trys i ≡ some (first_answer attempts n i)
unfolding recv_loop first_answer
recv_loop-first_answer attempts zero trys i e = rw last (both (blocks (attempts i)))
  where
    last : (trys + 1 == 100) ≡ true
    last = ground arith

    both : (b : Bool) → (if b then some (attempts i) else some (attempts i)) ≡ some (attempts i)
    both true = refl
    both false = refl
recv_loop-first_answer attempts (suc n) trys i e =
    ap (λ o. if blocks (attempts i) then o else some (attempts i))
      (not_last ∙ recv_loop-first_answer attempts n (trys + 1) (i + 1) (omega arith))
    ∙ push (blocks (attempts i)) _ _
  where
    not_last :
        (if trys + 1 == 100
          then some (attempts i)
          else recv_loop attempts (suc n) (trys + 1) (i + 1))
        ≡ recv_loop attempts (suc n) (trys + 1) (i + 1)
    not_last = rw more refl
      where
        more : (trys + 1 == 100) ≡ false
        more = ground arith

    push : (b : Bool) (x y : Received) → (if b then some x else some y) ≡ some (if b then x else y)
    push true x y = refl
    push false x y = refl

pub recv_wrapper-first_answer :
    (attempts : ℕ → Received) → recv_wrapper attempts ≡ some (first_answer attempts 99 0)
unfolding recv_wrapper
recv_wrapper-first_answer attempts = recv_loop-first_answer attempts 99 0 0 refl
