-- ===== src/Alarm/Delivered.antt =====
-- modules/alarm/cron/combiner.go: which messages the combiners write.
use falcon_plus.Base.{◌≡◌, refl, List, [], ◌∷◌, map, Option, some, Run}
use falcon_plus.Base.Text.{Text}
use falcon_plus.Base.Dict.{Dict, get, text_eq}
use falcon_plus.Utils.Grouped.{listed, under, AreGroups}
use falcon_plus.Alarm.Model.{Message}
use falcon_plus.Alarm.Combine.{
  Answer, Site, pop_all_dto, grouped, write_groups, combine, mail_key, mail_of, sms_key, sms_of,
  im_key, im_of, combine_mail, combine_sms, combine_im,
}
use falcon_plus.Alarm.Grouped.{keyed, grouped-AreGroups, grouped-under}

module _ {A : Type 0} (key : A → Text) (write : A → List A → Message) where
  -- One message for each group, made of it.
  abbrev pub AreWritten : Dict Text (List A) → List Message → Type 0
  AreWritten [] [] = Unit {0}
  AreWritten ((k, d ∷ ds) ∷ m) (o ∷ out) = (o ≡ write d ds) × AreWritten m out
  AreWritten _ _ = ⊥

  -- The messages are those of the groups of `ds`: for each key one, of all with the key, in order.
  abbrev pub IsCombined : List A → List Message → Type 0
  IsCombined ds out =
      (groups : Dict Text (List A)) × AreGroups groups
      × ((k : Text) → listed (get k groups) ≡ under k (map (keyed key) ds))
      × AreWritten groups out

  write_groups-AreWritten :
      (m : Dict Text (List A))
      → AreGroups m
      → (out : List Message) × (write_groups write m ≡ some out) × AreWritten m out
  unfolding write_groups
  write_groups-AreWritten [] h = ([], refl, tt)
  write_groups-AreWritten ((k, []) ∷ m) h = absurd (h.1 refl)
  write_groups-AreWritten ((k, d ∷ ds) ∷ m) h =
      let (out, run, written) = write_groups-AreWritten m h.2 in
      (write d ds ∷ out, rw run refl, (refl, written))

  combine-IsCombined :
      (ds : List A) → (out : List Message) × (combine key write ds ≡ some out) × IsCombined ds out
  unfolding combine get
  combine-IsCombined ds =
      let groups = grouped key ds [] in
      let h = grouped-AreGroups key ds [] tt in
      let (out, run, written) = write_groups-AreWritten groups h in
      (out, run, (groups, h, (λ k. grouped-under key k ds []), written))

module _ (env : Site) (queue : List Answer) where
  -- A combiner returns, with the messages of the groups of what it read, and leaves the rest.
  abbrev pub Combines :
      {A : Type 0}
      → (Text → Option A)
      → (A → Text)
      → (A → List A → Message)
      → Run (List Message × List Answer)
      → Type 0
  Combines read key write run =
      (out : List Message) × (run ≡ some (out, (pop_all_dto read queue).1))
      × IsCombined key write (pop_all_dto read queue).0 out

  -- Whatever is in the queue, each of the three combiners returns without a panic, leaves what
  -- popAll has left, and writes one message for each key of what it read, made of all that has the
  -- key, in the order of the queue.
  pub combine-Combines :
      Combines env.read_mail mail_key mail_of (combine_mail env queue)
      × Combines env.read_sms sms_key (sms_of env) (combine_sms env queue)
      × Combines env.read_im im_key (im_of env) (combine_im env queue)
  unfolding combine_mail combine_sms combine_im
  combine-Combines =
      let (mails, run0, combined0) =
        combine-IsCombined mail_key mail_of (pop_all_dto env.read_mail queue).0 in
      let (texts, run1, combined1) =
        combine-IsCombined sms_key (sms_of env) (pop_all_dto env.read_sms queue).0 in
      let (ims, run2, combined2) =
        combine-IsCombined im_key (im_of env) (pop_all_dto env.read_im queue).0 in
      (
        (mails, rw run0 refl, combined0),
        (texts, rw run1 refl, combined1),
        (ims, rw run2 refl, combined2),
      )
