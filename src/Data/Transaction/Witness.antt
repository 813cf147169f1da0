-- ===== src/Data/Transaction/Witness.antt =====
-- What can be read never has a witness, although a witness is written.
use xbtc.Base.{
  ◌≡◌, refl, sym, ap, subst, Bool, true, false, some, List, [], ◌∷◌, ◌==◌, Bool-cases, inl, inr,
  >>=-eq-some, some-pair_left, All,
}
use xbtc.Stream.{Streams}
use xbtc.Serial.{read_string, read_vector}
use xbtc.Serial.Vector.{read_vector-All}
use xbtc.Data.Transaction.{TransactionInput, Transaction, any_witness, has_witness}
use xbtc.Data.Transaction.Codec.{
  read_out_point, read_input, read_output, reread_inputs, read_transaction,
}

module _ (xul : Streams) where
  open xul use {Input, read_uint}

  read_input_plain :
      (s : Input) (input : TransactionInput) (s' : Input)
      → read_input xul s ≡ some (input, s')
      → input.witness ≡ []
  unfolding read_input
  read_input_plain s input s' e =
      let ((p, s1), q1, e1) = >>=-eq-some (read_out_point xul s) _ (input, s') e in
      let ((script, s2), q2, e2) = >>=-eq-some (read_string xul 50000 s1) _ (input, s') e1 in
      let ((sequence, s3), q3, e3) = >>=-eq-some (read_uint 4 s2) _ (input, s') e2 in
      ap (λ x. x.witness) (sym (some-pair_left e3))

  plain_vector :
      (s : Input) (inputs : List TransactionInput) (s' : Input)
      → read_vector xul (read_input xul) 10000 s ≡ some (inputs, s')
      → All (λ input. input.witness ≡ []) inputs
  plain_vector =
      read_vector-All xul (λ input. input.witness ≡ []) (read_input xul) read_input_plain 10000

  reread_inputs_plain :
      (again : Bool) (inputs : List TransactionInput) (s : Input) (inputs' : List TransactionInput)
      (s' : Input)
      → All (λ input. input.witness ≡ []) inputs
      → reread_inputs xul again inputs s ≡ some (inputs', s')
      → All (λ input. input.witness ≡ []) inputs'
  unfolding reread_inputs
  reread_inputs_plain false inputs s inputs' s' h e =
      subst (All (λ input. input.witness ≡ [])) (some-pair_left e) h
  reread_inputs_plain true inputs s inputs' s' h e =
      let ((flag, s1), q1, e1) = >>=-eq-some (read_uint 1 s) _ (inputs', s') e in
      elim (Bool-cases (flag == 0)) [
        | inl zero_flag ↦
            subst (All (λ input. input.witness ≡ [])) (some-pair_left (rw zero_flag at e1)) h
        | inr set_flag ↦ plain_vector s1 inputs' s' (rw set_flag at e1)
      ]

  any_witness_plain :
      (inputs : List TransactionInput)
      → All (λ input. input.witness ≡ []) inputs
      → any_witness inputs ≡ false
  unfolding any_witness
  any_witness_plain [] h = refl
  any_witness_plain (input ∷ inputs) (h, hs) = rw h (any_witness_plain inputs hs)

  -- No transaction that is read has a witness: one that was written with its transaction is not
  -- read back.
  pub has_witness-read_transaction :
      (tx : Transaction) (s : Input) (tx' : Transaction) (s' : Input)
      → read_transaction xul tx s ≡ some (tx', s')
      → has_witness tx' ≡ false
  unfolding read_transaction has_witness
  has_witness-read_transaction tx s tx' s' e =
      let ((version, s1), q1, e1) = >>=-eq-some (read_uint 4 s) _ (tx', s') e in
      let ((inputs, s2), q2, e2) =
        >>=-eq-some (read_vector xul (read_input xul) 10000 s1) _ (tx', s') e1 in
      let ((inputs', s3), q3, e3) = >>=-eq-some (reread_inputs xul _ inputs s2) _ (tx', s') e2 in
      let ((outputs, s4), q4, e4) =
        >>=-eq-some (read_vector xul (read_output xul) 10000 s3) _ (tx', s') e3 in
      let ((lock_time, s5), q5, e5) = >>=-eq-some (read_uint 4 s4) _ (tx', s') e4 in
      subst (λ x. any_witness x.inputs ≡ false) (some-pair_left e5)
        (any_witness_plain inputs'
          (reread_inputs_plain _ inputs s2 inputs' s3 (plain_vector s1 inputs s2 q2) q3))
