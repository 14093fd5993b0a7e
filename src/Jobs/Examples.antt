-- ===== src/Jobs/Examples.antt =====
-- Jobs at work: runs that end, runs that a restart interrupts, and a job that is saved and loaded.
use se_skills.Prelude.{
  String, ap, inl, inr, ◌≡◌, refl, true, false, ◌||◌, ◌&&◌, not, none, some, [], ◌∷◌, ◌==◌,
}
use se_skills.Prelude.Int.{pos}
use se_skills.Prelude.Dict.{lookup}
use se_skills.Prelude.Result.{ok}
use se_skills.Json.{arr, nil, cons, null, int, str, bool, obj, Fields, end, field, truthy}
use se_skills.Jobs.Record.{json, tuple, python_object, Job, Jobs, text, is_running}
use se_skills.Jobs.Persistence.{job_of, payload, clean, save_jobs, Codec, load_jobs}
use se_skills.Jobs.RoundTrip.{cleaned, load_jobs-save_jobs}
use se_skills.Jobs.Restart.{Recovered}
use se_skills.Jobs.Loading.{load_jobs_lem}
use se_skills.Jobs.Service.{
  exited, finished, end_run, end_managed, new_job, clashes, Saving, ends, interrupted, die,
  is_scheduled, launch, finish,
}
use se_skills.Jobs.Lifecycle.{Ended, end_run-Ended, end_managed-Ended}
use se_skills.Jobs.History.{
  System, Steps, none_yet, then_step, launched, ended, died, restarted, Ending, skill_run, end_of,
  Attended, Steps-Attended,
}

abbrev job_fields : Fields
job_fields = field "kind" (str "skill") (
    field "status" (str "running")
      (field "started_at" (int (pos 5)) (field "stderr" (str "half") end)))

abbrev snapshot : Fields
snapshot = field "a" (obj job_fields) (field "b" null end)

abbrev codec : Codec
codec = record { dumps = λ j. "printed"; loads = λ t. some (obj snapshot) }

abbrev recovered_jobs : Jobs
recovered_jobs =
    (
      "a",
      ("kind", text "skill")
          ∷ ("status", text "error")
          ∷ ("started_at", json (int (pos 5)))
          ∷ (
            "stderr",
            text "half\n[Server restarted while this job was running. Re-run if needed.]",
          )
          ∷ ("ok", json (bool false))
          ∷ ("finished_at", json (int (pos 9)))
          ∷ [],
    )
    ∷ []

loads_jobs : load_jobs codec (int (pos 9)) (some "printed") ≡ ok recovered_jobs
unfolding load_jobs
loads_jobs = refl

load_jobs_lem_example :
    (jobs : Jobs) × (load_jobs codec (int (pos 9)) (some "printed") ≡ ok jobs)
    × Recovered snapshot jobs
unfolding truthy lookup job_of
load_jobs_lem_example =
    load_jobs_lem codec (int (pos 9)) "printed" snapshot refl refl
      (inr ("skill", refl), inr ("half", refl), tt)

abbrev skill_job : Job
skill_job = new_job "acme" none "post-call" none (json null) (int (pos 5))

end_run-Ended_example :
    Ended true true
      (int (pos 9))
      (end_run [] (some (pos 7)) (exited (pos 0) "out" "") none (int (pos 9)) skill_job)
end_run-Ended_example =
    end_run-Ended [] (some (pos 7)) (exited (pos 0) "out" "") none (int (pos 9)) skill_job

end_managed-Ended_example :
    Ended true true
      (int (pos 9))
      (end_managed (finished (("revision", json (int (pos 2))) ∷ [])) (int (pos 9)) skill_job)
unfolding clashes
end_managed-Ended_example =
    end_managed-Ended (finished (("revision", json (int (pos 2))) ∷ [])) (int (pos 9)) skill_job

abbrev at_first : System
at_first = record {
  store = record { jobs = []; disk = some "printed" };
  pending = λ i. false;
  lost = λ i. false;
}

abbrev ending : Ending
ending = skill_run [] (some (pos 7)) (exited (pos 0) "out" "") none (int (pos 9))

abbrev after_launch : Saving → String → System → System
after_launch saving id s = record {
  store = (launch codec saving id skill_job s.store).1;
  pending =
      λ i. (id == i && is_scheduled (launch codec saving id skill_job s.store).0) || s.pending i;
  lost =
      λ i. (id == i && not (is_scheduled (launch codec saving id skill_job s.store).0)) || s.lost i;
}

-- A launch whose snapshot fails, the end of its run, a launch that is interrupted, a restart, and two
-- launches again, of which one run dies.
abbrev one_launched : System
one_launched = after_launch (ends false) "c" at_first

abbrev one_ended : System
one_ended = record {
  store = finish codec (ends false) "c" (end_of ending) one_launched.store;
  pending = λ i. not ("c" == i) && one_launched.pending i;
  lost = one_launched.lost;
}

abbrev next_launched : System
next_launched = after_launch (interrupted false) "d" one_ended

abbrev reloaded : System
reloaded = record {
  store = record { jobs = recovered_jobs; disk = next_launched.store.disk };
  pending = λ i. false;
  lost = λ i. false;
}

abbrev third_launched : System
third_launched = after_launch (ends false) "e" reloaded

abbrev fourth_launched : System
fourth_launched = after_launch (interrupted true) "f" third_launched

abbrev third_died : System
third_died = record {
  store = die "e" (some (pos 7)) fourth_launched.store;
  pending = λ i. not ("e" == i) && fourth_launched.pending i;
  lost = λ i. "e" == i || fourth_launched.lost i;
}

still_printed : load_jobs codec (int (pos 9)) next_launched.store.disk ≡ ok recovered_jobs
unfolding load_jobs launch finish new_job end_run
still_printed = refl

history : Steps codec at_first third_died
unfolding truthy launch new_job
history =
    then_step _ fourth_launched _
      (then_step _ third_launched _
        (then_step _ reloaded _
          (then_step _ next_launched _
            (then_step _ one_ended _
              (then_step _ one_launched _
                (then_step _ at_first _ (none_yet at_first)
                  (launched at_first (ends false) "c" skill_job))
                (ended one_launched (ends false) "c" ending refl))
              (launched one_ended (interrupted false) "d" skill_job))
            (restarted next_launched (int (pos 9)) recovered_jobs refl still_printed))
          (launched reloaded (ends false) "e" skill_job))
        (launched third_launched (interrupted true) "f" skill_job))
      (died fourth_launched "e" (some (pos 7)) refl)

Steps-Attended_example : Attended third_died
unfolding lookup
Steps-Attended_example =
    Steps-Attended codec at_first third_died history (record { at = λ i r. cc r })

-- A job that is done, with a task and a signature, and the snapshot of it.
abbrev done_jobs : Jobs
done_jobs =
    (
      "a",
      ("status", text "done")
          ∷ ("task", python_object)
          ∷ ("sig", tuple (cons (str "acme") nil))
          ∷ [],
    )
    ∷ []

abbrev done_snapshot : Fields
done_snapshot =
    field "a" (obj (field "status" (str "done") (field "sig" (arr (cons (str "acme") nil)) end)))
      end

abbrev done_codec : Codec
done_codec = record { dumps = λ j. "printed"; loads = λ t. some (obj done_snapshot) }

done_payload : payload done_jobs ≡ some done_snapshot
unfolding payload
done_payload = refl

saves_done : save_jobs done_codec true done_jobs none ≡ (true, some "printed")
unfolding save_jobs
saves_done = refl

reads_done : (d : Fields) → payload done_jobs ≡ some d → some (obj done_snapshot) ≡ some (obj d)
reads_done d e = let same : done_snapshot ≡ d = cc (e, done_payload) in ap (λ x. some (obj x)) same

load_jobs-save_jobs_example :
    load_jobs done_codec (int (pos 9)) (some "printed") ≡ ok (cleaned done_jobs)
unfolding clean is_running lookup
load_jobs-save_jobs_example =
    load_jobs-save_jobs done_codec (int (pos 9)) done_jobs none (some "printed") reads_done
      (refl, inl ((refl, (_, refl)), inr ((refl, (_, refl)), tt)), tt) saves_done
