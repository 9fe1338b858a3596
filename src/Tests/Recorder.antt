-- ===== src/Tests/Recorder.antt =====
-- A library that records the instructions that src/lower.cpp makes.
use lambcalc_cpp.Base.{
  ℕ, zero, suc, Option, none, some, List, [], ◌∷◌, ◌++◌, Str, bytes, str_eq, int_to_string,
  if◌then◌else◌, length,
}
use lambcalc_cpp.Lower.Library.{Llvm}

-- The functions with their numbers of parameters, and the instructions.
pub record Recorded : Type 0 where
  pub functions : List (Str × ℕ)
  pub code : List Str

-- An operand is its text, and a function has a number of parameters.
abbrev pub Operand : Type 0
Operand = Str × ℕ

abbrev append : Str → Recorded → Recorded
append line r = record r { code = r.code ++ line ∷ [] }

abbrev define : Str → Str → Recorded → Operand × Recorded
define name line r = ((name, 0), append (name ++ bytes " = " ++ line) r)

abbrev pub find : Str → List (Str × ℕ) → Option Operand
find x [] = none
find x ((y, n) ∷ fs) = if str_eq x y then some (y, n) else find x fs

abbrev pub repeated : ℕ → List Operand
repeated zero = []
repeated (suc n) = (bytes "arg", 0) ∷ repeated n

abbrev comma : List Operand → Str
comma [] = []
comma ((x, n) ∷ xs) = bytes " " ++ x ++ comma xs

abbrev pub recorder : Llvm
recorder = record {
  Ir = Recorded;
  Ty = ℕ;
  Value = Operand;
  Block = Str;
  ptr_ty = 0;
  int64_ty = 0;
  function_ty = λ result params. length params;
  pointer_ty = λ t. t;
  int64 = λ i. (int_to_string i, 0);
  get_function = λ name r. find name r.functions;
  get_global = λ name r. none;
  insert_global = λ name ty r. ((name, 0), r);
  insert_function = λ name ty r. ((name, ty), r);
  create_function = λ ty name r. record r { functions = r.functions ++ (name, ty) ∷ [] };
  args = λ fn r. repeated fn.1;
  set_name = λ v name r. r;
  create_block = λ name fn r. (name, r);
  set_insert_point = λ block r. append (block ++ bytes ":") r;
  create_alloca = λ ty r. define (bytes "slot") (bytes "alloca") r;
  create_load = λ ty v name r. define name (bytes "load " ++ v.0) r;
  create_store = λ v p r. append (bytes "store " ++ v.0 ++ bytes " " ++ p.0) r;
  create_ptr_to_int = λ v ty r. define (bytes "int") (bytes "ptrtoint " ++ v.0) r;
  create_int_to_ptr = λ v ty r. define (bytes "ptr") (bytes "inttoptr " ++ v.0) r;
  create_gep = λ ty v i r. define (bytes "gep") (bytes "gep " ++ v.0 ++ bytes " " ++ i.0) r;
  create_call_at = λ ty fn ps name r. define name (bytes "call " ++ fn.0 ++ comma ps) r;
  create_call = λ fn ps name r. define name (bytes "call " ++ fn.0 ++ comma ps) r;
  create_bin_op = λ op a b name r. define name (bytes "op " ++ a.0 ++ bytes " " ++ b.0) r;
  create_icmp_ne = λ a b r. define (bytes "cond") (bytes "icmp " ++ a.0 ++ bytes " " ++ b.0) r;
  create_br = λ b r. append (bytes "br " ++ b) r;
  create_cond_br = λ c t e r. append (bytes "br " ++ c.0 ++ bytes " " ++ t ++ bytes " " ++ e) r;
  create_ret = λ v r. append (bytes "ret" ++ comma (elim v [ none ↦ [] | some x ↦ x ∷ [] ])) r;
}

abbrev pub start : Recorded
start = record { functions = []; code = [] }
