-- ===== src/Tests/Values.antt =====
-- The operators of vm.c on concrete values.
use gsc.Base.{ℕ, true, false, [], ◌∷◌, some, ◌≡◌, ◌≢◌, refl, arith, codes}
use gsc.Base.Result.{Result, ok, err, ◌>>=◌, unsupported_operator}
use gsc.Base.Word
use gsc.Trie.{empty}
use gsc.StringTable.{StringTable}
use gsc.ObjectPool.{ObjectPool}
use gsc.Token.{tk_equal, tk_nequal}
use gsc.Vm.Variable.{Variable}
use gsc.Vm.Binop.{Operation, case_labels, select, binop_int, binop}
use gsc.Vm.Binop.Laws.{negated, binop-nequal, binop-undefined_other}
use gsc.Vm.Binop.Words.{binop_int_order}
use gsc.Vm.Binop.Division.{IsDivision, binop_int-IsDivision}
use gsc.Tests.Platform.{platform}

abbrev strings : StringTable
strings = record {
  head = empty;
  begin = record { beg = 4096; end = 8096; jmp_oom = true };
  end = record { beg = 10496; end = 12096; jmp_oom = true };
  strings = [];
  entries = [];
  index = 0;
  max_entries = 60;
}

abbrev pool : ObjectPool
pool = record {
  struct_size = 64;
  size = 1;
  capacity = 1;
  free_list = 128 ∷ [];
  initial_memory = some 128;
}

abbrev run : Variable → Variable → ℕ → Result (Variable × ObjectPool)
run a b op = binop platform strings a b op pool

abbrev three : Variable
three = Variable.integer 3

abbrev text : Variable
text = Variable.string (codes "3")

binop-nequal_example : run three text tk_nequal ≡ (run three text tk_equal >>= negated)
binop-nequal_example = binop-nequal platform strings three text pool

not-eq : select case_labels b'+' ≢ Operation.eq
unfolding select
not-eq e = cc

not-ne : select case_labels b'+' ≢ Operation.ne
unfolding select
not-ne e = cc

binop-undefined_other_example :
    (run Variable.undefined three b'+' ≡ err unsupported_operator)
    × (run three Variable.undefined b'+' ≡ err unsupported_operator)
binop-undefined_other_example = binop-undefined_other platform strings three b'+' pool not-eq not-ne

-- -1 and -7.
abbrev minus_one : ℕ
minus_one = 18446744073709551615

abbrev minus_seven : ℕ
minus_seven = 18446744073709551609

binop_int_order_example :
    (binop_int Operation.lt minus_one 3 ≡ ok (Variable.boolean 1))
    × (binop_int Operation.gt minus_one 3 ≡ ok (Variable.boolean 0))
    × (binop_int Operation.le minus_one 3 ≡ ok (Variable.boolean 1))
    × (binop_int Operation.ge minus_one 3 ≡ ok (Variable.boolean 0))
    × (binop_int Operation.eq minus_one 3 ≡ ok (Variable.boolean 0))
    × (binop_int Operation.ne minus_one 3 ≡ ok (Variable.boolean 1))
binop_int_order_example = binop_int_order minus_one 3 (omega arith) (omega arith)

divisible : Word.div_traps minus_seven 2 ≡ false
unfolding Word.div_traps
divisible = refl

binop_int-IsDivision_example :
    (q : ℕ) × (r : ℕ) × (binop_int Operation.div minus_seven 2 ≡ ok (Variable.integer q))
    × (binop_int Operation.rem minus_seven 2 ≡ ok (Variable.integer r))
    × IsDivision minus_seven 2 q r
binop_int-IsDivision_example =
    binop_int-IsDivision minus_seven 2 (omega arith) (omega arith) divisible
