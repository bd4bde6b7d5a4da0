-- ===== src/Sdk/Conforms/Settling.antt =====
-- The calls of completeNode, submitCompletion and disputeNode of sdk/src/pipeline.ts fit their
-- instructions.
use chainpipe.Base.{ℕ, ◌≡◌, ◌<◌, ◌^◌, refl, [], ◌∷◌, arith, length}
use chainpipe.Base.Results.{ok}
use chainpipe.Base.Text.{Bytes, Text}
use chainpipe.Idl.DagEscrow
use chainpipe.Sdk.Platform.{Platform, PublicKey}
use chainpipe.Sdk.Accounts.{Addresses, PipelineNode}
use chainpipe.Sdk.Uri.{EncodedUri, encode_uri, encode_uri-size}
use chainpipe.Sdk.Calls.Shape.{number, byte_list}
use chainpipe.Sdk.Calls.Settlement.{complete_node_call, submit_completion_call, dispute_node_call}
use chainpipe.Sdk.Conforms.{Conforms}
use chainpipe.Sdk.Conforms.Deployed.{TokenAccountLaw, ProgramIdsLaw, IsDeployed}

module _ (pf : Platform) (a : Addresses) where
  pub completes-Conforms :
      TokenAccountLaw pf
      → ProgramIdsLaw pf
      → IsDeployed pf a
      → (facilitator pipeline : PublicKey) (i : ℕ) (agent : PublicKey) (score : ℕ)
        (treasury : PublicKey) (result : Bytes) (n : PipelineNode)
      → i < 256
      → score < 2 ^ 15
      → length result ≡ 32
      → Conforms pf DagEscrow.complete_node
          (complete_node_call pf a facilitator pipeline i agent score treasury result n)
          (("nodeIndex", number i)
            ∷ ("scoreDelta", number score)
            ∷ ("resultHash", byte_list result)
            ∷ [])
  completes-Conforms law ids live facilitator pipeline i agent score treasury result n h0 h1 h2 =
      record {
        program_called = live.escrow_at;
        method_named = refl;
        accounts_supplied = ground (arith, h0, h1, h2, law a.usdc_mint pipeline);
        none_extra = refl;
        arguments_fit = ground (arith, h0, h1, h2, law a.usdc_mint pipeline);
        arguments_given = ground arith;
        accounts_signed = ground arith;
        accounts_placed = ground (arith, h0, h1, h2, law a.usdc_mint pipeline);
        accounts_fixed = ground (arith, ids.token, ids.system, live.registry_at, live.bridge_at);
      }

  pub submits-Conforms :
      TokenAccountLaw pf
      → ProgramIdsLaw pf
      → IsDeployed pf a
      → (facilitator pipeline : PublicKey) (i : ℕ) (agent : PublicKey) (score : ℕ) (result : Bytes)
        (uri : Text) (enc : EncodedUri)
      → i < 256
      → score < 2 ^ 15
      → length result ≡ 32
      → encode_uri uri ≡ ok enc
      → Conforms pf DagEscrow.submit_completion
          (submit_completion_call pf a facilitator pipeline i agent score result enc)
          (("nodeIndex", number i)
            ∷ ("scoreDelta", number score)
            ∷ ("resultHash", byte_list result)
            ∷ ("uri", byte_list enc.bytes)
            ∷ ("uriLen", number enc.len)
            ∷ [])
  submits-Conforms law ids live facilitator pipeline i agent score result uri enc h0 h1 h2 h3 =
      record {
        program_called = live.escrow_at;
        method_named = refl;
        accounts_supplied = ground (arith, h0, h1, h2, h3, encode_uri-size uri h3);
        none_extra = refl;
        arguments_fit = ground (arith, h0, h1, h2, h3, encode_uri-size uri h3);
        arguments_given = ground arith;
        accounts_signed = ground arith;
        accounts_placed = ground (arith, h0, h1, h2, h3, encode_uri-size uri h3);
        accounts_fixed = ground (arith, ids.system);
      }

  pub disputes-Conforms :
      TokenAccountLaw pf
      → ProgramIdsLaw pf
      → IsDeployed pf a
      → (consumer pipeline : PublicKey) (i : ℕ) (reason : Bytes) (reason_code : ℕ) → i < 256
      → length reason ≡ 32
      → reason_code < 256
      → Conforms pf DagEscrow.dispute_node
          (dispute_node_call pf a consumer pipeline i reason reason_code)
          (("nodeIndex", number i)
            ∷ ("reasonHash", byte_list reason)
            ∷ ("reasonCode", number reason_code)
            ∷ [])
  disputes-Conforms law ids live consumer pipeline i reason reason_code h0 h1 h2 = record {
    program_called = live.escrow_at;
    method_named = refl;
    accounts_supplied = ground (arith, h0, h1, h2);
    none_extra = refl;
    arguments_fit = ground (arith, h0, h1, h2);
    arguments_given = ground arith;
    accounts_signed = ground arith;
    accounts_placed = ground (arith, h0, h1, h2);
    accounts_fixed = ground arith;
  }
