-- ===== src/Examples/Dues.antt =====
-- A run of the fee index: one invoice that is paid in part, one that is waived, one of another student.
use attendance_managment.Base.{if◌then◌else◌, ◌-◌, String, ◌≡◌, Bool, true, false, List, [], ◌∷◌}
use attendance_managment.Fees.{InvoiceLike, PaymentLike, Calendar, build_fee_index}
use attendance_managment.Fees.Index.{total, paid_for, summary_at, build_fee_index-totals}

abbrev june : Calendar
june = record {
  add_days = λ date days. date;
  diff_days = λ from to. 1;
  locale_before = λ a b. false;
  today = "2025-06-10";
  grace_days = 0;
}

abbrev invoice_of : String → String → Bool → InvoiceLike
invoice_of id student_id waived = record {
  id = id;
  student_id = student_id;
  amount = 1000;
  issued_on = "2025-06-01";
  due_date = "2025-06-05";
  period = "2025-06";
  waived = waived;
}

abbrev dues : List InvoiceLike
dues =
    invoice_of "i1" "asha" false ∷ invoice_of "i2" "asha" true ∷ invoice_of "i3" "ravi" false ∷ []

abbrev receipts_so_far : List PaymentLike
receipts_so_far =
    record { invoice_id = "i1"; student_id = "asha"; amount = 400; date = "2025-06-02" } ∷ []

build_fee_index-totals_example :
    let s = summary_at "asha" (build_fee_index june dues receipts_so_far) in
    let own = invoice_of "i1" "asha" false ∷ invoice_of "i2" "asha" true ∷ [] in
    (s.total_billed ≡ total (λ i. if i.waived then 0 else i.amount) own)
    × (s.total_paid ≡ total (λ i. paid_for i.id receipts_so_far) own)
    × (s.outstanding
        ≡ total (λ i. if i.waived then 0 else i.amount - paid_for i.id receipts_so_far) own)
build_fee_index-totals_example = build_fee_index-totals june "asha" dues receipts_so_far
