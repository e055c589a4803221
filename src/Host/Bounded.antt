-- ===== src/Host/Bounded.antt =====
-- The loop of `boundResult` ends, and what it returns is accepted.
use runner_loom.Base.{
  ℕ, suc, ◌≤◌, Bool, true, not, ◌&&◌, ◌||◌, String, some, ◌≡◌, refl, ◌∙◌, inl, inr, ltb, leb,
  str_eq, eq_iff, len, bytes, arith, Bool-cases,
}
use runner_loom.Config.Names.{at_most}
use runner_loom.Config.Validate.Check.{Platform}
use runner_loom.Task.{TaskResult}
use runner_loom.Task.Check.{valid_git_ref, result_valid, known_status, hex, safe_url}
use runner_loom.Host.Outcome.{
  tail_string, report_size, max_output, max_report, final_status, small_patch, safe_branch,
  bound_fields, drop_links, smaller, shrink, bound_result,
}
use runner_loom.Host.Sizes.{result_valid-Sized, report_size-bound}

tail_string-len : (s : String) (n : ℕ) → len (tail_string s n) ≤ n
unfolding tail_string
tail_string-len String.[] n = omega arith
tail_string-len (String.◌∷◌ c s) n = elim (Bool-cases (leb (len (String.◌∷◌ c s)) n)) [
  | inl h ↦ rw h (ground arith)
  | inr h ↦ rw h (tail_string-len s n)
]

or_more : (a b c : Bool) → (a || b) ≡ true → (a || b || c) ≡ true
or_more a b c h = ground arith

final_status-known : (s : String) → known_status (final_status s) ≡ true
unfolding known_status final_status
final_status-known s = elim (Bool-cases (str_eq s "succeeded" || str_eq s "failed")) [
  | inl h ↦ rw h (or_more (str_eq s "succeeded") (str_eq s "failed") _ h)
  | inr h ↦ rw h refl
]

small_patch-len : (s : String) → not (ltb 393216 (len (small_patch s))) ≡ true
unfolding small_patch
small_patch-len s = elim (Bool-cases (ltb 393216 (len s))) [
  | inl h ↦ rw h refl
  | inr h ↦ rw h (ground arith)
]

safe_branch-valid :
    (s : String) → (str_eq (safe_branch s) "" || valid_git_ref (safe_branch s)) ≡ true
unfolding safe_branch
safe_branch-valid s = elim (Bool-cases (str_eq s "" || valid_git_ref s)) [
  | inl h ↦ rw h h
  | inr h ↦ rw h refl
]

small : (n : ℕ) (s : String) → not (ltb n (len (tail_string s n))) ≡ true
small n s = let h = tail_string-len s n in ground arith

-- Without a commit and a link every field is within its limit.
cleared :
    (e : Platform) (r : TaskResult)
    → result_valid e (record (bound_fields r) { commit = ""; pull_request_url = "" }) ≡ true
unfolding result_valid bound_fields at_most
cleared e r =
    rw
      (
        final_status-known r.status,
        small 4096 r.error,
        small 65536 r.output,
        small 16384 r.diff_stat,
        small_patch-len r.patch,
        safe_branch-valid r.branch,
      )
      refl

drop_links-valid :
    (e : Platform) (r : TaskResult) → result_valid e (drop_links e (bound_fields r)) ≡ true
unfolding drop_links
drop_links-valid e r = elim (Bool-cases (result_valid e (bound_fields r))) [
  | inl h ↦ rw h h
  | inr h ↦ rw h (cleared e r)
]

drop_links-output : (e : Platform) (r : TaskResult) → (drop_links e r).output ≡ r.output
unfolding drop_links
drop_links-output e r = elim (Bool-cases (result_valid e r)) [
  | inl h ↦ rw h refl
  | inr h ↦ rw h refl
]

other_fifth :
    (a b c d e f g h i : Bool)
    → (a && b && c && d && e && f && g && h && i) ≡ true
    → (a && b && c && d && true && f && g && h && i) ≡ true
other_fifth a b c d e f g h i k = ground arith

without_patch : TaskResult → TaskResult
without_patch r = record r { patch = ""; truncated = true }

without_patch-valid :
    (e : Platform) (r : TaskResult)
    → result_valid e r ≡ true
    → result_valid e (without_patch r) ≡ true
unfolding result_valid without_patch
without_patch-valid e r h =
    other_fifth (known_status r.status) (not (ltb 4096 (len r.error)))
      (not (ltb 65536 (len r.output))) (not (ltb 16384 (len r.diff_stat)))
      (not (ltb 393216 (len r.patch))) (str_eq r.branch "" || valid_git_ref r.branch)
      (at_most 64 hex (bytes r.commit)) (not (ltb 512 (len r.pull_request_url)))
      (str_eq r.pull_request_url "" || safe_url (e.parse_url r.pull_request_url)) h

-- The end of the loop, from a result that is accepted.
record Ended (e : Platform) (q out : TaskResult) : Type 0 where
  ends : (n : ℕ) → shrink (suc (suc n)) q ≡ some out
  accepted : result_valid e out ≡ true
  fits : report_size out ≤ max_report
  output : out.output ≡ q.output

shrink-Ended :
    (e : Platform) (q : TaskResult) → result_valid e q ≡ true → (out : TaskResult) × Ended e q out
unfolding shrink smaller without_patch
shrink-Ended e q h = elim (Bool-cases (leb (report_size q) max_report)) [
  | inl f ↦ (q, record { ends = λ n. rw f refl; accepted = h; fits = ground arith; output = refl })
  | inr f ↦ elim (Bool-cases (str_eq q.patch "")) [
    | inl p ↦
        let k = report_size-bound q (result_valid-Sized e q h) ((eq_iff q.patch "").0 p) in
        absurd (ground arith)
    | inr p ↦
        let v = without_patch-valid e q h in
        let k =
          report_size-bound (without_patch q) (result_valid-Sized e (without_patch q) v) refl in
        let g : leb (report_size (without_patch q)) max_report ≡ true = ground arith in
        (
          without_patch q,
          record { ends = λ n. rw (f, p, g) refl; accepted = v; fits = k; output = refl },
        )
  ]
]

-- Two rounds of the loop of boundResult are enough for every result of a guest: it returns a
-- result that TaskResult.Validate accepts, whose report is at most 900 KiB of JSON, and whose
-- output is the guest's, cut to its last 64 KiB.
pub bound_result_ends :
    (e : Platform) (r : TaskResult)
    → (out : TaskResult) × ((n : ℕ) → bound_result (suc (suc n)) e r ≡ some out)
      × (result_valid e out ≡ true)
      × (report_size out ≤ max_report)
      × (out.output ≡ tail_string r.output max_output)
unfolding bound_result bound_fields
bound_result_ends e r =
    let (out, z) = shrink-Ended e (drop_links e (bound_fields r)) (drop_links-valid e r) in
    (out, z.ends, z.accepted, z.fits, z.output ∙ drop_links-output e (bound_fields r))
