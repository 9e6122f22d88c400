-- ===== src/Tests/Code.antt =====
-- The theorems on the text section and the virtual machine at a program of two functions.
use xenonjs.Base.{
  ℕ, ◌+◌, List, [], ◌∷◌, ◌++◌, false, Option, none, some, ok, ◌≡◌, refl, sym, ap, ◌∙◌, inl, inr,
  arith, length, u32, All,
}
use xenonjs.BitWriter.Encode.{Emits}
use xenonjs.Linker.{signature_text}
use xenonjs.Linker.File.{Link, start_ex}
use xenonjs.Linker.Loads.{image}
use xenonjs.Linker.Whole.{sections}
use xenonjs.Xfile.{Xfile}
use xenonjs.Xfile.Readers.{IsLoaded}
use xenonjs.Xfile.Sits.{Sits}
use xenonjs.Xfile.Loader.{load}
use xenonjs.Text.{
  nop, ret, make_function, label, load_number, call, br, halt, op_brc, op_call, Function, Code,
  AnnotatedFunction,
}
use xenonjs.Text.Translate.{Whole, Context, translate, item_size, find}
use xenonjs.Text.Annotate.{text_section_annotate, label_offsets}
use xenonjs.Regalloc.{R1, Life, set_r1, schedule_lives, regsched_initialize}
use xenonjs.Regalloc.Table.{AreOneEach, IsScheduled, schedule_lives-IsScheduled}
use xenonjs.Text.Writer.{operands, write_text}
use xenonjs.Text.Bytes.{encode, functions_code}
use xenonjs.Text.Format.{functions_layout, Emits-write_text}
use xenonjs.Text.Size.{SizedAs, translate-Sized}
use xenonjs.Text.Places.{IsAnnotated, text_section_annotate-IsAnnotated}
use xenonjs.Text.Closed.{AreAllClosed, text_section_annotate-AreAllClosed}
use xenonjs.Text.Labels.{IsLabelOf, label_offsets-IsLabelOf}
use xenonjs.Text.Stage.{text_stage}
use xenonjs.Buffer.{Buffer}
use xenonjs.Buffer.Valid.{contents}
use xenonjs.Debug.{Place, write_dbg0}
use xenonjs.Debug.Bytes.{all_bytes, all_index}
use xenonjs.Debug.Written.{write_dbg0-writes}
use xenonjs.Linker.{signature_dbg0, signature_dbi0}
use xenonjs.Vm.{decode}
use xenonjs.Vm.RoundTrip.{decode-encode}
use xenonjs.Vm.Program.{IsDecoded, loaded_file, start_ex-IsDecoded}
use xenonjs.Tests.{
  zeroed, zeroed-IsMalloc, zeroed-never-none, is_bytes-IsBytes, five_bytes, no_debug, small_ir,
  small_annotation, small_annotated, nowhere, two_bytes, two_bytes-IsReady,
}

-- Every double stands for the number 300.
abbrev three_hundred : Whole
three_hundred value = some 300

abbrev a_double : List ℕ
a_double = 0 ∷ 0 ∷ 0 ∷ 0 ∷ 0 ∷ 192 ∷ 114 ∷ 64 ∷ []

-- A function of one parameter, and a toplevel that makes it, and calls it in a loop.
abbrev two_functions : Code
two_functions = record {
  functions =
      record { parameters = 5 ∷ []; items = nop ∷ ret 0 ∷ [] }
      ∷ record {
        parameters = [];
        items =
            make_function 0 0
            ∷ label 7
            ∷ load_number 1 a_double
            ∷ call 2 0 (1 ∷ 1 ∷ []) none
            ∷ br 7
            ∷ halt
            ∷ [];
      }
      ∷ [];
  toplevel = 1;
}

abbrev laid_out : Link (List AnnotatedFunction × ℕ) → List AnnotatedFunction
laid_out (ok r) = r.0
laid_out _ = []

compiled_functions : List AnnotatedFunction
unfolding text_section_annotate regsched_initialize
compiled_functions = laid_out (
    text_section_annotate three_hundred (regsched_initialize (λ lp v. 0)) two_functions
      small_annotation)

compiled-eq :
    text_section_annotate three_hundred
      (regsched_initialize (λ lp v. 0))
      two_functions
      small_annotation
    ≡ ok (compiled_functions, 11)
unfolding compiled_functions text_section_annotate regsched_initialize
compiled-eq = refl

text_section_annotate-IsAnnotated_example :
    IsAnnotated three_hundred two_functions (compiled_functions, 11)
text_section_annotate-IsAnnotated_example =
    text_section_annotate-IsAnnotated three_hundred (regsched_initialize (λ lp v. 0)) two_functions
      small_annotation (compiled_functions, 11)
      ((tt, (tt, tt)), ((tt, (tt, (refl, (tt, (tt, (tt, tt)))))), tt))
      (unfold item_size in omega arith) compiled-eq

text_section_annotate-AreAllClosed_example : AreAllClosed 0 compiled_functions
text_section_annotate-AreAllClosed_example =
    text_section_annotate-AreAllClosed three_hundred (regsched_initialize (λ lp v. 0)) two_functions
      small_annotation (compiled_functions, 11)
      ((tt, (tt, tt)), ((tt, (tt, (refl, (tt, (tt, (tt, tt)))))), tt))
      (unfold item_size in omega arith) compiled-eq

start_ex-IsDecoded_example :
    (start_ex zeroed zeroed some
        (text_stage zeroed three_hundred (regsched_initialize (λ lp v. 0)) two_functions)
        no_debug
        small_ir
        false
      ≡ ok (image (sections small_ir small_annotation (functions_code compiled_functions) 11)))
    × (load five_bytes
          (image (sections small_ir small_annotation (functions_code compiled_functions) 11))
          (length
            (image (sections small_ir small_annotation (functions_code compiled_functions) 11)))
        ≡ ok (
            loaded_file five_bytes
              (sections small_ir small_annotation (functions_code compiled_functions) 11)
              (u32 11)))
    × All
        (λ func.
          All
            (IsDecoded (
              loaded_file five_bytes
                (sections small_ir small_annotation (functions_code compiled_functions) 11)
                (u32 11)))
            func.items)
        compiled_functions
unfolding sections compiled_functions text_section_annotate operands item_size regsched_initialize
start_ex-IsDecoded_example =
    start_ex-IsDecoded zeroed zeroed-IsMalloc zeroed-never-none zeroed zeroed-IsMalloc
      zeroed-never-none some no_debug three_hundred (regsched_initialize (λ lp v. 0)) five_bytes
      small_ir two_functions small_annotation compiled_functions 11
      ((tt, (tt, tt)), ((tt, (tt, (refl, (tt, (tt, (tt, tt)))))), tt)) (omega arith) small_annotated
      compiled-eq
      (is_bytes-IsBytes
        (image (sections small_ir small_annotation (functions_code compiled_functions) 11)) refl)
      (omega arith)

label_offsets-IsLabelOf_example : IsLabelOf three_hundred two_functions.functions 0 1 0 7 19
unfolding label_offsets find item_size
label_offsets-IsLabelOf_example =
    label_offsets-IsLabelOf three_hundred two_functions.functions 1 ((7, 19) ∷ []) 7 19
      (omega arith) refl refl

-- The context of an item in a function with one label.
abbrev one_label : Context
one_label = record {
  register = λ var. var;
  labels = some ((7, 19) ∷ []);
  datas = (5, 0) ∷ [];
  functions = (0, 0) ∷ [];
}

translate-Sized_example :
    SizedAs
      (item_size three_hundred (call 2 0 (1 ∷ 1 ∷ []) (some 3)))
      (translate three_hundred one_label (call 2 0 (1 ∷ 1 ∷ []) (some 3)))
translate-Sized_example =
    translate-Sized three_hundred one_label (call 2 0 (1 ∷ 1 ∷ []) (some 3)) tt

-- A branch and a call.
abbrev two_insts : List AnnotatedFunction
two_insts =
    record {
      items =
          record { inst = op_brc 4 600; offset = 0 }
          ∷ record { inst = op_call 1 2 (3 ∷ []); offset = 6 }
          ∷ [];
      offset = 0;
    }
    ∷ []

Emits-write_text_example :
    Emits (write_text zeroed two_insts) (b't' ∷ b'e' ∷ b'x' ∷ b't' ∷ functions_layout two_insts)
unfolding operands
Emits-write_text_example =
    Emits-write_text zeroed zeroed-IsMalloc zeroed-never-none two_insts
      ((((tt, (tt, tt)), tt), (((tt, (tt, (tt, (tt, tt)))), omega arith), tt)), tt)

-- A file that is a text section and nothing else.
abbrev text_file : Xfile
text_file = record {
  bc = signature_text ++ (0x11 ∷ 4 ∷ 88 ∷ 2 ∷ 0 ∷ 0 ∷ []);
  len = 10;
  sections = nowhere;
  init_pc = 0;
}

text_file-IsLoaded : IsLoaded text_file
text_file-IsLoaded = record {
  bytes = is_bytes-IsBytes text_file.bc refl;
  length_is = refl;
  fits = omega arith;
}

brc-Sits : Sits (encode (op_brc 4 600)) (0 + 4 + 0) text_file.bc
unfolding operands
brc-Sits = record { front = signature_text; back = []; whole_is = refl; front_is = refl }

decode-encode_example : decode text_file 0 ≡ ok (op_brc 4 600, 0 + length (encode (op_brc 4 600)))
unfolding operands
decode-encode_example =
    decode-encode text_file text_file-IsLoaded (omega arith) (op_brc 4 600) 0 ((tt, (tt, tt)), tt)
      brc-Sits

abbrev in_a_loop : Function
in_a_loop = record {
  parameters = [];
  items =
      make_function 0 0
      ∷ label 7
      ∷ load_number 1 a_double
      ∷ call 2 0 (1 ∷ 1 ∷ []) none
      ∷ br 7
      ∷ halt
      ∷ [];
}

abbrev scheduled_to : Link R1 → R1
scheduled_to (ok r) = r
scheduled_to _ = record { reg_alloc_tbl = []; regs_count = 0 }

loop_registers : R1
unfolding set_r1
loop_registers = scheduled_to (set_r1 in_a_loop)

-- Two lives that overlap at a point.
abbrev two_lives : List Life
two_lives = record { var = 0; start = 0; end = 1 } ∷ record { var = 1; start = 1; end = 2 } ∷ []

two_registers : R1
unfolding schedule_lives
two_registers = scheduled_to (schedule_lives two_lives)

two_lives-AreOneEach : AreOneEach two_lives
two_lives-AreOneEach a b (inl e) (inl f) same = e ∙ sym f
two_lives-AreOneEach a b (inl e) (inr (inl f)) same =
    let x = ap (λ k. k.var) e in let y = ap (λ k. k.var) f in absurd (omega (arith, same, x, y))
two_lives-AreOneEach a b (inl e) (inr (inr n)) same = absurd n
two_lives-AreOneEach a b (inr (inl e)) (inl f) same =
    let x = ap (λ k. k.var) e in let y = ap (λ k. k.var) f in absurd (omega (arith, same, x, y))
two_lives-AreOneEach a b (inr (inl e)) (inr (inl f)) same = e ∙ sym f
two_lives-AreOneEach a b (inr (inl e)) (inr (inr n)) same = absurd n
two_lives-AreOneEach a b (inr (inr m)) n same = absurd m

schedule_lives-IsScheduled_example : IsScheduled two_lives two_registers
unfolding two_registers schedule_lives
schedule_lives-IsScheduled_example =
    schedule_lives-IsScheduled two_lives two_registers two_lives-AreOneEach refl (omega arith)

-- Two instructions, of a file and of none.
abbrev two_places : List (List Place)
two_places =
    (record {
      offset = 0;
      filename = some (97 ∷ 98 ∷ []);
      start_ln = 1;
      start_col = 2;
      end_ln = 1;
      end_col = 5;
      range_start = 2;
      range_end = 5;
    }
      ∷ record {
        offset = 6;
        filename = none;
        start_ln = 2;
        start_col = 0;
        end_ln = 2;
        end_col = 1;
        range_start = 9;
        range_end = 10;
      }
      ∷ [])
    ∷ []

write_dbg0-writes_example :
    (g : Buffer) × (i : Buffer) × (write_dbg0 zeroed some two_places two_bytes two_bytes
      ≡ ok (g, i))
    × (contents g ≡ contents two_bytes ++ (signature_dbg0 ++ all_bytes some two_places))
    × (contents i ≡ contents two_bytes ++ (signature_dbi0 ++ all_index some 0 two_places))
write_dbg0-writes_example =
    write_dbg0-writes zeroed zeroed-IsMalloc zeroed-never-none some two_places two_bytes two_bytes
      ((named, (tt, tt)), tt) two_bytes-IsReady two_bytes-IsReady (omega arith) (omega arith)
  where
    named : ¬ (◌≡◌ {A = Option (List ℕ)} (some (97 ∷ 98 ∷ [])) none)
    named e = cc
