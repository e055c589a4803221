-- ===== src/Host/Sizes.antt =====
-- The size of the JSON text of a result that `TaskResult.Validate` accepts.
use runner_loom.Base.{
  ℕ, zero, suc, ◌+◌, ◌*◌, ◌/◌, ◌≤◌, Bool, true, false, not, ◌&&◌, ◌||◌, String, List, [], ◌∷◌, ◌≡◌,
  refl, sym, inl, inr, ltb, length, length-append, str_eq, eq_iff, subst, encode, len, bytes, arith,
  Bool-cases,
}
use Prim.Native.Char.{code}
use runner_loom.Base.Int64.{ℤ, pos, negsuc}
use runner_loom.Config.Names.{at_most}
use runner_loom.Config.Validate.Check.{Platform}
use runner_loom.Task.{TaskResult}
use runner_loom.Task.Check.{valid_git_ref, result_valid, ref_pattern, ref_char, known_status, hex}
use runner_loom.Host.Outcome.{
  json_char, json_chars, json_string, json_field, digits, json_int, json_bool, truncated_mark,
  report_size, max_report,
}

json_char-encode : (c : ℕ) → json_char c ≤ 6 * length (encode c)
unfolding json_char
json_char-encode c = ground arith

json_chars-len : (s : String) → json_chars s ≤ 6 * len s
unfolding json_chars
json_chars-len String.[] = omega arith
json_chars-len (String.◌∷◌ c s) =
    let h = json_chars-len s in
    let k = json_char-encode (code c) in
    rw (length-append (encode (code c)) (bytes s)) (omega arith)

json_field-len : (key : ℕ) (s : String) → json_field key s ≤ key + 6 + 6 * len s
unfolding json_field json_string
json_field-len key s = elim (Bool-cases (str_eq s "")) [
  | inl h ↦ rw h (omega arith)
  | inr h ↦ rw h (let k = json_chars-len s in omega arith)
]

digits-bound : (left n : ℕ) → digits left n ≤ suc left
unfolding digits
digits-bound zero n = omega arith
digits-bound (suc left) n = let h = digits-bound left (n / 10) in ground arith

json_int-bound : (n : ℤ) → json_int n ≤ 21
unfolding json_int
json_int-bound (pos n) = let h = digits-bound 19 n in omega arith
json_int-bound (negsuc n) = let h = digits-bound 19 (suc n) in omega arith

at_most-length : (n : ℕ) (p : ℕ → Bool) (cs : List ℕ) → at_most n p cs ≡ true → length cs ≤ n
unfolding at_most
at_most-length n p [] h = omega arith
at_most-length zero p (c ∷ cs) h = ground arith
at_most-length (suc n) p (c ∷ cs) h = let k = at_most-length n p cs (ground arith) in omega arith

ref_pattern-length : (cs : List ℕ) → ref_pattern cs ≡ true → length cs ≤ 200
unfolding ref_pattern
ref_pattern-length [] h = omega arith
ref_pattern-length (c ∷ cs) h = let k = at_most-length 199 ref_char cs (ground arith) in omega arith

valid_git_ref-len : (s : String) → valid_git_ref s ≡ true → len s ≤ 200
unfolding valid_git_ref
valid_git_ref-len s h = ref_pattern-length (bytes s) (ground arith)

known_status-size : (s : String) → known_status s ≡ true → json_string s ≤ 11
unfolding known_status json_string
known_status-size s h = elim (Bool-cases (str_eq s "succeeded")) [
  | inl a ↦ size "succeeded" (omega arith) ((eq_iff s "succeeded").0 a)
  | inr a ↦ elim (Bool-cases (str_eq s "failed")) [
    | inl b ↦ size "failed" (omega arith) ((eq_iff s "failed").0 b)
    | inr b ↦ size "no-result" (omega arith) ((eq_iff s "no-result").0 (ground arith))
  ]
]
  where
    size : (t : String) → json_string t ≤ 11 → s ≡ t → json_string s ≤ 11
    size t b e = subst (λ x. json_string x ≤ 11) (sym e) b

branch-size : (s : String) → (str_eq s "" || valid_git_ref s) ≡ true → json_field 6 s ≤ 1212
unfolding json_field
branch-size s h = elim (Bool-cases (str_eq s "")) [
  | inl a ↦ rw a (omega arith)
  | inr a ↦ let k = json_field-len 6 s in let l = valid_git_ref-len s (ground arith) in omega arith
]

truncated_mark-size : (b : Bool) → truncated_mark b ≤ 17
unfolding truncated_mark
truncated_mark-size true = omega arith
truncated_mark-size false = omega arith

json_bool-size : (b : Bool) → json_bool b ≤ 5
unfolding json_bool
json_bool-size true = omega arith
json_bool-size false = omega arith

empty-size : (key : ℕ) (s : String) → s ≡ "" → json_field key s ≡ 0
unfolding json_field
empty-size key s e = subst (λ x. json_field key x ≡ 0) (sym e) refl

-- What `TaskResult.Validate` says of the sizes.
pub record Sized (r : TaskResult) : Type 0 where
  pub status_size : json_string r.status ≤ 11
  pub error_len : len r.error ≤ 4096
  pub output_len : len r.output ≤ 65536
  pub stat_len : len r.diff_stat ≤ 16384
  pub branch_size : json_field 6 r.branch ≤ 1212
  pub commit_len : len r.commit ≤ 64
  pub url_len : len r.pull_request_url ≤ 512

all_nine :
    (a b c d e f g h i : Bool)
    → (a && b && c && d && e && f && g && h && i) ≡ true
    → (a ≡ true)
      × (b ≡ true)
      × (c ≡ true)
      × (d ≡ true)
      × (e ≡ true)
      × (f ≡ true)
      × (g ≡ true)
      × (h ≡ true)
      × (i ≡ true)
all_nine a b c d e f g h i k = ground arith

within : (n : ℕ) (s : String) → not (ltb n (len s)) ≡ true → len s ≤ n
within n s h = ground arith

pub result_valid-Sized : (e : Platform) (r : TaskResult) → result_valid e r ≡ true → Sized r
unfolding result_valid
result_valid-Sized e r h =
    let (a, b, c, d, p, f, g, l, u) = all_nine _ _ _ _ _ _ _ _ _ h in
    record {
      status_size = known_status-size r.status a;
      error_len = within 4096 r.error b;
      output_len = within 65536 r.output c;
      stat_len = within 16384 r.diff_stat d;
      branch_size = branch-size r.branch f;
      commit_len = at_most-length 64 hex (bytes r.commit) g;
      url_len = within 512 r.pull_request_url l;
    }

pub report_size-bound : (r : TaskResult) → Sized r → r.patch ≡ "" → report_size r ≤ max_report
unfolding report_size
report_size-bound r z p =
    let code = json_int-bound r.exit_code in
    let error = json_field-len 5 r.error in
    let output = json_field-len 6 r.output in
    let commit = json_field-len 6 r.commit in
    let url = json_field-len 14 r.pull_request_url in
    let stat = json_field-len 8 r.diff_stat in
    let patch = empty-size 5 r.patch p in
    let changed = json_bool-size r.changed in
    let pushed = json_bool-size r.pushed in
    let mark = truncated_mark-size r.truncated in
    let s1 = z.status_size in
    let s2 = z.error_len in
    let s3 = z.output_len in
    let s4 = z.stat_len in
    let s5 = z.branch_size in let s6 = z.commit_len in let s7 = z.url_len in omega arith
