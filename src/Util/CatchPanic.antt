-- ===== src/Util/CatchPanic.antt =====
-- rust/src/util/types.rs: the wrappers that turn a panic or an error of a callback into a response.
pub mod Laws
use ffi_demo.Base.{String, ◌<>◌}
use ffi_demo.Base.Effect.{
  Payload, static_str, owned, display, Result, ok, err, Unwind, returns, panics, Exec,
}
use ffi_demo.Util.World.{World, info}
use ffi_demo.Util.Log.{init_log}
use ffi_demo.Util.Response.{
  Default, Response, ok_response, err_response, err_no_default, response_of_result,
}

-- `panic.downcast_ref::<&'static str>()`
unfoldable pub panic_text : Payload → String
panic_text (static_str text) = text
panic_text (owned _) = "no unwind information"

-- `format!("Rust panic: {}", error_msg)`
unfoldable pub panic_message : Payload → String
unfolding panic_text
panic_message p = "Rust panic: " <> panic_text p

module _ {T : Type 0} ⦃d : Default T⦄ where
  -- the `match` on the result of `catch_unwind`
  caught : Unwind (Response T) → Response T
  unfolding panic_message err_response
  caught (returns t) = t
  caught (panics p) = err_response (panic_message p)

  -- `Result::from(callback().map_err(|err| err.to_string()))`
  into_response : Unwind (Result T) → Unwind (Response T)
  unfolding response_of_result
  into_response (returns r) = returns (response_of_result r)
  into_response (panics p) = panics p

module _ {S T : Type 0} ⦃d : Default T⦄ where
  unfoldable pub catch_panic_response_raw_no_log :
      (S → Unwind (Response T) × S) → S → Response T × S
  unfolding caught
  catch_panic_response_raw_no_log callback s = let (r, s') = callback s in (caught r, s')

  unfoldable pub catch_panic_response_no_log : Exec S T → S → Response T × S
  unfolding catch_panic_response_raw_no_log into_response
  catch_panic_response_no_log callback =
      catch_panic_response_raw_no_log λ s. let (r, s') = callback s in (into_response r, s')

-- the two `match`es of `catch_panic_response_no_default`
caught_no_default : {T : Type 0} → T → Unwind (Result T) → Response T
unfolding ok_response err_no_default panic_message
caught_no_default zeroed (returns (ok t)) = ok_response t
caught_no_default zeroed (returns (err e)) = err_no_default zeroed (display e)
caught_no_default zeroed (panics p) = err_no_default zeroed (panic_message p)

module _ {E : Type 0} where
  -- The line after the callback is written only if the callback returns.
  end_line : {A : Type 0} → String → Unwind A → World E → World E
  end_line name (returns _) w = info (name <> ": end") w
  end_line name (panics _) w = w

  -- The closure around the callback: initialise the logger, and log the start and the end.
  unfoldable pub logged :
      {A : Type 0} → String → (World E → Unwind A × World E) → World E → Unwind A × World E
  unfolding end_line init_log
  logged name callback w =
      let (r, w') = callback (info (name <> ": start") (init_log w)) in (r, end_line name r w')

  module _ {T : Type 0} where
    unfoldable pub catch_panic_response_raw :
        ⦃d : Default T⦄
        → String
        → (World E → Unwind (Response T) × World E)
        → World E
        → Response T × World E
    unfolding catch_panic_response_raw_no_log logged
    catch_panic_response_raw name callback = catch_panic_response_raw_no_log (logged name callback)

    unfoldable pub catch_panic_response :
        ⦃d : Default T⦄ → String → Exec (World E) T → World E → Response T × World E
    unfolding catch_panic_response_raw into_response
    catch_panic_response name callback =
        catch_panic_response_raw name λ w. let (r, w') = callback w in (into_response r, w')

    unfoldable pub catch_panic_response_no_default :
        T → String → Exec (World E) T → World E → Response T × World E
    unfolding caught_no_default logged
    catch_panic_response_no_default zeroed name callback w =
        let (r, w') = logged name callback w in (caught_no_default zeroed r, w')
