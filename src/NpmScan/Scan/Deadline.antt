-- ===== src/NpmScan/Scan/Deadline.antt =====
-- Polling ends.
use socket_scan_patterns.Failure.{Result, ok, err}
use socket_scan_patterns.NpmScan.Ndjson.{artifacts, processing, reason}
use socket_scan_patterns.NpmScan.Scan.Polling.{
  FullScanAttempt, streamed, missing_stream, read_status, full_scan_poll_interval_ms,
  full_scan_read_timeout_ms, Evidence, Reads, judge, poll, read_full_scan_evidence,
}
use socket_scan_patterns.Prelude.{
  ℕ, zero, suc, ◌+◌, ◌*◌, ◌≤◌, ◌<◌, Option, some, ltb, ◌≡◌, refl, arith, Bool-cases, inl, inr,
}

Ends : Option Evidence → Type 0
Ends o = (e : Evidence) × (o ≡ some e)

-- A read that is judged ends the loop, or the rest of the loop does.
module _ (reads : Reads) where
  judge-Ends :
      (deadline time : ℕ) (attempt : Result FullScanAttempt) (rest : Option Evidence)
      → (time + full_scan_poll_interval_ms ≤ deadline → Ends rest)
      → Ends (judge reads deadline time attempt rest)
  unfolding judge Ends
  judge-Ends deadline time (err thrown) rest h = (_, refl)
  judge-Ends deadline time (ok (read_status status)) rest h = (_, refl)
  judge-Ends deadline time (ok missing_stream) rest h = (_, refl)
  judge-Ends deadline time (ok (streamed (reason why))) rest h = (_, refl)
  judge-Ends deadline time (ok (streamed (artifacts found))) rest h = (_, refl)
  judge-Ends deadline time (ok (streamed processing)) rest h =
      elim (Bool-cases (ltb deadline (time + full_scan_poll_interval_ms))) [
        | inl e ↦ rw e (_, refl)
        | inr e ↦ rw e (h (ground arith))
      ]

  poll-Ends :
      (fuel deadline k : ℕ)
      → ((n : ℕ) → reads.now n + full_scan_poll_interval_ms ≤ reads.now (suc n))
      → deadline < reads.now k + full_scan_poll_interval_ms * suc fuel
      → Ends (poll reads (suc fuel) deadline k)
  unfolding poll
  poll-Ends zero deadline k waits room =
      judge-Ends deadline (reads.now k) (reads.attempt k) _ (λ early. absurd (omega arith))
  poll-Ends (suc fuel) deadline k waits room =
      judge-Ends deadline (reads.now k) (reads.attempt k) _
        (λ early. poll-Ends fuel deadline (suc k) waits (omega (arith, waits k)))

  -- If the clock goes forward by the poll interval at least from each read to the next, polling a
  -- scan ends within 121 reads, with evidence or a refusal.
  pub read_full_scan_evidence-ends :
      (began : ℕ)
      → began ≤ reads.now 0
      → ((n : ℕ) → reads.now n + full_scan_poll_interval_ms ≤ reads.now (suc n))
      → (found : Evidence) × (read_full_scan_evidence reads 121 began ≡ some found)
  unfolding read_full_scan_evidence Ends
  read_full_scan_evidence-ends began starts waits =
      poll-Ends 120 (began + full_scan_read_timeout_ms) 0 waits (omega (arith, starts))
