-- ===== src/Examples/Learning.antt =====
-- The review of knowledge at a concrete candidate.
use ia_lab.Prelude.{
  ◌≡◌, ◌≢◌, refl, true, false, none, some, [], ◌∷◌, any, str_eq, stable_sort, trim_space,
  if◌then◌else◌, ◌==◌,
}
use ia_lab.Prelude.Json.{end}
use ia_lab.Secretary.Learning.{
  KnowledgeItem, Knowledge, candidate, review_knowledge, save_knowledge, append_knowledge,
  append_record, list_knowledge, gather, action_status,
}
use ia_lab.Secretary.Learning.Filing.{IsFiled, save_knowledge-IsFiled}
use ia_lab.Secretary.Learning.Review.{review_knowledge_settles, review_knowledge_once}

abbrev fact : KnowledgeItem
fact = record {
  schema_version = 1;
  id = "k1";
  operator_id = 7;
  value = "the demo is on Friday";
  details = end;
  valid_until = 0;
  status = some candidate;
  created_at = 86400;
  updated_at = 86400;
}

abbrev pending_review : Knowledge
pending_review = λ o. if o == 7 then record { day = 1; records = fact ∷ [] } ∷ [] else []

abbrev reviewed_once : Knowledge
reviewed_once = (review_knowledge 7 "approve" "k1" 90000 true true pending_review).0

review_knowledge_settles_example : any {A = KnowledgeItem} (λ i. str_eq i.id "k1") [] ≡ false
unfolding review_knowledge trim_space action_status list_knowledge stable_sort gather save_knowledge
    append_knowledge append_record
review_knowledge_settles_example =
    review_knowledge_settles (λ id. 1) 7 "approve" "k1" 90000 true true true pending_review
      reviewed_once [] (tt, tt) (((refl, (refl, refl)), tt), tt) refl refl

review_knowledge_once_example :
    (review_knowledge 7 "reject" "k1" 90001 true true reviewed_once).1 ≢ none
unfolding review_knowledge trim_space action_status list_knowledge stable_sort gather save_knowledge
    append_knowledge append_record
review_knowledge_once_example =
    review_knowledge_once (λ id. 1) 7 "approve" "reject" "k1" 90000 90001 pending_review
      reviewed_once true true true true (tt, tt) (((refl, (refl, refl)), tt), tt) refl

save_knowledge-IsFiled_example :
    IsFiled
      (λ id. 1)
      ((save_knowledge (record fact { id = "" }) (some "k2") 90000 true pending_review).0 7)
save_knowledge-IsFiled_example =
    save_knowledge-IsFiled (λ id. 1) (record fact { id = "" }) (some "k2") 90000 true pending_review
      7 "k2" refl refl ((tt, tt), (((refl, (refl, refl)), tt), tt))
