-- ===== src/Gpu/Calls/Submissions.antt =====
-- What a submission keeps of the GPU's state.
use qemu_dll_shadps.Base.{ℕ, sym, subst, inl, inr, Option, none, some, List, Bool-cases}
use qemu_dll_shadps.Gpu.Guest.{GuestMemory}
use qemu_dll_shadps.Gpu.State.{report_rejection, Submit}
use qemu_dll_shadps.Gpu.Submit.{Device, submit_commands, submit}
use qemu_dll_shadps.Gpu.Submit.Outcomes.{
  submit_commands-report_rejection, submit_commands-Ran, submit-report_rejection, submit-Ran,
}
use qemu_dll_shadps.Gpu.Calls.Invariant.{IsGpu, report_rejection-IsGpu, complete-IsGpu}

module _ {M : Type 0} (guest : GuestMemory M) where
  pub submit_commands-IsGpu :
      (commands : List ℕ) (queue_id fence_addr fence_value : ℕ) (d : Device M)
      → IsGpu d.gpu
      → IsGpu (submit_commands guest commands queue_id fence_addr fence_value d).1.gpu
  submit_commands-IsGpu commands queue_id fence_addr fence_value d g =
      elim (Bool-cases (submit_commands guest commands queue_id fence_addr fence_value d).0) [
        | inl accepted ↦
            let a = submit_commands-Ran guest commands queue_id fence_addr fence_value d accepted in
            subst IsGpu (sym a.changes)
              (complete-IsGpu a.flattened a.parsed queue_id fence_value d.gpu a.parses g)
        | inr refused ↦
            subst IsGpu
              (sym (
                submit_commands-report_rejection guest commands queue_id fence_addr fence_value d
                  refused))
              (report_rejection-IsGpu d.gpu g)
      ]

  pub submit-IsGpu :
      (s : Option Submit) (d : Device M) → IsGpu d.gpu → IsGpu (submit guest s d).1.gpu
  unfolding submit report_rejection
  submit-IsGpu none d g = record {
    context = g.context;
    shader = g.shader;
    queue_count = g.queue_count;
    queues = g.queues;
  }
  submit-IsGpu (some s) d g = elim (Bool-cases (submit guest (some s) d).0) [
    | inl accepted ↦
        let (commands, _, a) = submit-Ran guest s d accepted in
        subst IsGpu (sym a.changes)
          (complete-IsGpu a.flattened a.parsed s.queue_id s.fence_value d.gpu a.parses g)
    | inr refused ↦
        subst IsGpu (sym (submit-report_rejection guest (some s) d refused))
          (report_rejection-IsGpu d.gpu g)
  ]
